-- ===== src/Ethereum/Failover.antt =====
-- internal/ethereum/client.go: which node's answer a read returns, and which node is sent a
-- transaction.
use withdraw_bot.Prelude.{
  String, Option, none, some, List, [], ◌∷◌, ◌≡◌, refl, ◌⊎◌, ◌↔◌, inl, inr, arith, ap, ◌∙◌, ◌<>◌,
}
use withdraw_bot.Errors.{Error, Result, ok, err, Result-cases, map_err-eq-ok}
use withdraw_bot.Ethereum.{
  RpcClient, MultiClient, SignedTx, present, rpc_clients, first_answer, read, send_transaction,
}

module _ {A : Type 0} (ask : RpcClient → Result A) where
  -- `a` is the answer of the first client of the list that answers no error.
  abbrev pub FirstAnswer : List RpcClient → A → Type 0
  FirstAnswer [] a = ⊥
  FirstAnswer (client ∷ rest) a =
      (ask client ≡ ok a) ⊎ (((e : Error) × (ask client ≡ err e)) × FirstAnswer rest a)

  -- Every client of the list answers an error, and `last` is the last of them.
  abbrev pub LastError : List RpcClient → Error → Error → Type 0
  LastError [] before last = before ≡ last
  LastError (client ∷ rest) before last = (e : Error) × (ask client ≡ err e) × LastError rest e last

  first_answer-FirstAnswer :
      (clients : List RpcClient) (last : Error) (a : A)
      → first_answer ask clients last ≡ ok a
      → FirstAnswer clients a
  unfolding first_answer
  first_answer-FirstAnswer [] last a h = cc
  first_answer-FirstAnswer (client ∷ rest) last a h = elim (Result-cases (ask client)) [
    | inl (b, e) ↦ inl (e ∙ (rw (e, first_answer) at h))
    | inr (x, e) ↦ inr ((x, e), first_answer-FirstAnswer rest x a (rw (e, first_answer) at h))
  ]

  FirstAnswer-first_answer :
      (clients : List RpcClient) (last : Error) (a : A)
      → FirstAnswer clients a
      → first_answer ask clients last ≡ ok a
  unfolding first_answer
  FirstAnswer-first_answer [] last a h = absurd h
  FirstAnswer-first_answer (client ∷ rest) last a (inl e) = rw (e, first_answer)
  FirstAnswer-first_answer (client ∷ rest) last a (inr ((x, e), later)) =
      rw (e, first_answer) (FirstAnswer-first_answer rest x a later)

  LastError-first_answer :
      (clients : List RpcClient) (before last : Error)
      → LastError clients before last
      → first_answer ask clients before ≡ err last
  unfolding first_answer
  LastError-first_answer [] before last h = ap err h
  LastError-first_answer (client ∷ rest) before last (e, fails, later) =
      rw (fails, first_answer) (LastError-first_answer rest e last later)

  module _ (what : String) (client : MultiClient) (primary : RpcClient)
      (set : client.primary ≡ some primary) where
    -- The nodes of the client: the primary one, then the fallbacks that are not nil.
    abbrev pub nodes : List RpcClient
    nodes = primary ∷ present client.fallbacks

    -- With a primary node, a read returns `a` exactly when `a` is the answer of the first node, in
    -- order, that answers no error.
    pub read-FirstAnswer : (a : A) → (read ask what client ≡ ok a) ↔ FirstAnswer nodes a
    unfolding read rpc_clients
    read-FirstAnswer a = (
      (λ h.
          first_answer-FirstAnswer nodes (Error.message "%!w(<nil>)") a
            (map_err-eq-ok _ _ (rw (set, read, rpc_clients) at h))),
      (λ h. rw (set, rpc_clients, FirstAnswer-first_answer nodes (Error.message "%!w(<nil>)") a h)),
    )

    -- With a primary node, if every node answers an error, the read fails with the last node's
    -- error, wrapped.
    read-LastError :
        (e last : Error)
        → LastError nodes e last
        → read ask what client ≡ err (Error.wrapped (what <> " failed on all RPC clients") last)
    unfolding read rpc_clients
    read-LastError e last h =
        rw (set, rpc_clients, LastError-first_answer nodes (Error.message "%!w(<nil>)") last h)

-- A transaction is accepted exactly when there is a primary node and a transaction, and the primary
-- node accepts it; the fallback nodes are never asked.
send_transaction_primary :
    (client : MultiClient) (tx : Option SignedTx)
    → (send_transaction client tx ≡ none) ↔ (
        (primary : RpcClient) × (signed : SignedTx) × (client.primary ≡ some primary)
        × (tx ≡ some signed)
        × (primary.send_transaction signed ≡ none))
unfolding send_transaction
send_transaction_primary client none = (λ h. ground arith, λ h. ground arith)
send_transaction_primary client (some signed) = (to client.primary refl, λ h. ground arith)
  where
    to :
        (p : Option RpcClient)
        → client.primary ≡ p
        → send_transaction client (some signed) ≡ none
        → (primary : RpcClient) × (sent : SignedTx) × (client.primary ≡ some primary)
          × (some signed ≡ some sent)
          × (primary.send_transaction sent ≡ none)
    to none e h = absurd (ground arith)
    to (some primary) e h = (primary, signed, e, refl, ground arith)
