-- ===== src/Ethereum/Dial.antt =====
-- internal/ethereum/client.go: no connection is lost while the nodes are dialled.
use withdraw_bot.Prelude.{
  String, some, List, [], ◌∷◌, ◌++◌, map, ◌≡◌, refl, inl, inr, ap, ◌∙◌, sym, append-nil,
  append_assoc,
}
use withdraw_bot.Errors.{Result, ok, err, Result-cases}
use withdraw_bot.Ethereum.{
  RpcClient, MultiClient, new_multi_client, present, close, dial_fallbacks, dial_multi,
}

module _ (dial : String → Result RpcClient) where
  -- The clients that dialling the URLs in order opens, up to the first that fails.
  pub opened : List String → List RpcClient
  opened [] = []
  opened (url ∷ rest) = elim (dial url) [ ok client ↦ client ∷ opened rest | err _ ↦ [] ]

  -- Every open connection is in the client that is returned, or is closed already.
  abbrev pub Accounts : List RpcClient → Result MultiClient × List RpcClient → Type 0
  Accounts all (ok client, closed) = (close client ≡ all) × (closed ≡ [])
  Accounts all (err _, closed) = closed ≡ all

  present-map : (clients : List RpcClient) → present (map some clients) ≡ clients
  unfolding present
  present-map [] = refl
  present-map (client ∷ rest) = ap (λ l. client ∷ l) (present-map rest)

  dial_fallbacks-Accounts :
      (primary : RpcClient) (urls : List String) (fallbacks : List RpcClient)
      → Accounts (primary ∷ (fallbacks ++ opened urls)) (dial_fallbacks dial primary urls fallbacks)
  unfolding dial_fallbacks new_multi_client close opened
  dial_fallbacks-Accounts primary [] fallbacks =
      (ap (λ l. primary ∷ l) (present-map fallbacks ∙ sym (append-nil fallbacks)), refl)
  dial_fallbacks-Accounts primary (url ∷ rest) fallbacks = elim (Result-cases (dial url)) [
    | inl (client, e) ↦
        rw (e, dial_fallbacks, opened)
          (rw (← append_assoc fallbacks (client ∷ []) (opened rest))
            (dial_fallbacks-Accounts primary rest (fallbacks ++ (client ∷ []))))
    | inr (x, e) ↦ rw (e, dial_fallbacks, opened, append-nil)
  ]

  -- The open connections once the primary URL has been dialled.
  pub opened_from : String → List String → List RpcClient
  opened_from primary_url urls = elim (dial primary_url) [
    | ok primary ↦ primary ∷ opened urls
    | err _ ↦ []
  ]

  -- Dialling loses no connection: if it succeeds, `Close` of the client closes exactly the
  -- connections that were opened, and none is closed yet; if it fails, all that were opened are
  -- closed again.
  pub dial_multi-Accounts :
      (primary_url : String) (urls : List String)
      → Accounts (opened_from primary_url urls) (dial_multi dial primary_url urls)
  unfolding dial_multi opened_from
  dial_multi-Accounts primary_url urls = elim (Result-cases (dial primary_url)) [
    | inl (primary, e) ↦ rw (e, dial_multi, opened_from) (dial_fallbacks-Accounts primary urls [])
    | inr (x, e) ↦ rw (e, dial_multi, opened_from)
  ]
