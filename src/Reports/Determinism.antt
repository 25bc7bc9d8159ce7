-- ===== src/Reports/Determinism.antt =====
-- internal/reports/report.go: the text does not depend on the order of the map.
use Prim.Native.Nat.{max}
use mathlib.Core.List.{Permᴰ, Perm}
use mathlib.Core.Logic.{∥∥₁_elim}
use withdraw_bot.Prelude.{
  ℕ, List, ◌<>◌, trim_text, ◌≡◌, refl, sym, ap, ap₂, ◌∙◌, arith, Distinct, sort_keys_permuted,
  text_set,
}
use withdraw_bot.Core.{MonitorModuleId, MonitorResult}
use withdraw_bot.Core.Status.{rank, worst_rank, status_of_rank, worst_known_status-worst_rank}
use withdraw_bot.Reports.{monitor_status_text, statuses_of, result_sections, render_stats}

max_swap : (a b c : ℕ) → max a (max b c) ≡ max b (max a c)
max_swap a b c = omega arith

worst_rank-statuses_of :
    {l r : List (MonitorModuleId × MonitorResult)}
    → Permᴰ l r
    → worst_rank (statuses_of l) ≡ worst_rank (statuses_of r)
worst_rank-statuses_of Permᴰ.nil = refl
worst_rank-statuses_of (Permᴰ.cons e p) =
    ap₂ (λ x n. max (rank x.1.status) n) e (worst_rank-statuses_of p)
worst_rank-statuses_of (Permᴰ.swap {a = a} {b = b} {l = l} e₁ e₂) =
    max_swap (rank a.1.status) (rank b.1.status) (worst_rank (statuses_of l))
    ∙ ap₂ (λ x y. max (rank x.1.status) (max (rank y.1.status) (worst_rank (statuses_of l)))) e₂ e₁
worst_rank-statuses_of (Permᴰ.trans p q) = worst_rank-statuses_of p ∙ worst_rank-statuses_of q

-- The text of the statistics is the same in whatever order Go ranges over the map of the results.
pub render_stats-Perm :
    {l r : List (MonitorModuleId × MonitorResult)}
    → Distinct l
    → Perm l r
    → render_stats l ≡ render_stats r
unfolding render_stats
render_stats-Perm {l} {r} distinct same =
    ∥∥₁_elim same (text_set (render_stats l) (render_stats r)) (λ p.
      ap₂
        (λ status sections.
          trim_text ("Status: " <> monitor_status_text status <> "\n" <> result_sections sections))
        (worst_known_status-worst_rank (statuses_of l)
          ∙ ap status_of_rank (worst_rank-statuses_of p)
          ∙ sym (worst_known_status-worst_rank (statuses_of r)))
        (sort_keys_permuted p distinct))
