-- ===== src/Workers/PaymentFormat/Laws.antt =====
-- Laws about the numbers of transactions of the payment formats.
use tp_distribuidos_moneylau.Prelude.{
  ℕ, ◌==◌, nat_eq, list_eq, List, if◌then◌else◌, get_or, sum_map,
}
use tp_distribuidos_moneylau.Prelude.Text.{Text}
use tp_distribuidos_moneylau.Workers.PaymentFormat.{Totals}

module _ {Amount : Type 0} (zero : Amount) (plus : Amount → Amount → Amount) where
  -- how many transactions of a format are counted by totals
  abbrev pub counted : Text → Totals Amount → ℕ
  counted f totals = (get_or f (zero, 0) totals).1

  -- and by the entries of a batch
  abbrev pub counted_in : Text → List (Text × (Amount × ℕ)) → ℕ
  counted_in f = sum_map (λ e. if e.0 == f then e.1.1 else 0)
