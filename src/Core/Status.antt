-- ===== src/Core/Status.antt =====
-- internal/core/status.go: the overall status is the worst of the known ones.
use Prim.Native.Nat.{max}
use withdraw_bot.Prelude.{ℕ, ◌≡◌, true, false, List, [], ◌∷◌, arith, leb, if◌then◌else◌}
use withdraw_bot.Core.{MonitorStatus, worst_from, worst_known_status}

-- How bad a status is; a status that says nothing counts as 0.
abbrev pub rank : MonitorStatus → ℕ
rank MonitorStatus.urgent = 3
rank MonitorStatus.warn = 2
rank MonitorStatus.ok = 1
rank MonitorStatus.unknown = 0
rank (MonitorStatus.other _) = 0

-- The worst rank of a list.
abbrev pub worst_rank : List MonitorStatus → ℕ
worst_rank [] = 0
worst_rank (s ∷ rest) = max (rank s) (worst_rank rest)

abbrev pub status_of_rank : ℕ → MonitorStatus
status_of_rank n =
    if leb 3 n
    then MonitorStatus.urgent
    else if leb 2 n
    then MonitorStatus.warn
    else if leb 1 n
    then MonitorStatus.ok
    else MonitorStatus.unknown

worst_from_warn :
    (l : List MonitorStatus)
    → worst_from MonitorStatus.warn true l ≡ status_of_rank (max 2 (worst_rank l))
unfolding worst_from
worst_from_warn [] = ground arith
worst_from_warn (MonitorStatus.urgent ∷ l) = ground arith
worst_from_warn (MonitorStatus.warn ∷ l) = ground (arith, worst_from_warn l)
worst_from_warn (MonitorStatus.ok ∷ l) = ground (arith, worst_from_warn l)
worst_from_warn (MonitorStatus.unknown ∷ l) = ground (arith, worst_from_warn l)
worst_from_warn (MonitorStatus.other _ ∷ l) = ground (arith, worst_from_warn l)

worst_from_ok :
    (l : List MonitorStatus)
    → worst_from MonitorStatus.ok true l ≡ status_of_rank (max 1 (worst_rank l))
unfolding worst_from
worst_from_ok [] = ground arith
worst_from_ok (MonitorStatus.urgent ∷ l) = ground arith
worst_from_ok (MonitorStatus.warn ∷ l) = ground (arith, worst_from_warn l)
worst_from_ok (MonitorStatus.ok ∷ l) = ground (arith, worst_from_ok l)
worst_from_ok (MonitorStatus.unknown ∷ l) = ground (arith, worst_from_ok l)
worst_from_ok (MonitorStatus.other _ ∷ l) = ground (arith, worst_from_ok l)

worst_from_unseen :
    (l : List MonitorStatus) → worst_from MonitorStatus.ok false l ≡ status_of_rank (worst_rank l)
unfolding worst_from
worst_from_unseen [] = ground arith
worst_from_unseen (MonitorStatus.urgent ∷ l) = ground arith
worst_from_unseen (MonitorStatus.warn ∷ l) = ground (arith, worst_from_warn l)
worst_from_unseen (MonitorStatus.ok ∷ l) = ground (arith, worst_from_ok l)
worst_from_unseen (MonitorStatus.unknown ∷ l) = ground (arith, worst_from_unseen l)
worst_from_unseen (MonitorStatus.other _ ∷ l) = ground (arith, worst_from_unseen l)

-- The overall status of any list of statuses is the status of its worst rank: urgent before warn
-- before OK, and unknown where no status is one of these three.
pub worst_known_status-worst_rank :
    (l : List MonitorStatus) → worst_known_status l ≡ status_of_rank (worst_rank l)
unfolding worst_known_status
worst_known_status-worst_rank l = worst_from_unseen l
