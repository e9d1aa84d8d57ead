-- ===== src/Examples/Prices.antt =====
-- Prices of small and of large fractions.
use dfc_api.Base.{ℕ, ◌+◌, ◌^◌, ◌≡◌, some, arith}
use dfc_api.Base.Int.{pos}
use dfc_api.Price.{Parsed, parsed, continued_fraction}
use dfc_api.Price.Exact.{Reduces, continued_fraction_lem}
use dfc_api.Price.Bounds.{Priced, continued_fraction-Priced}

continued_fraction_lem_example :
    (h k : ℕ) × (continued_fraction (pos 25) 10 ≡ some (parsed (record { n = pos h; d = pos k })))
    × Reduces 25 10 h k
continued_fraction_lem_example =
    continued_fraction_lem 25 10 (omega arith) (omega arith) (omega arith) (omega arith)

continued_fraction-Priced_example :
    (result : Parsed) × (continued_fraction (pos (10 ^ 12 + 1)) (10 ^ 7) ≡ some result)
    × Priced result
continued_fraction-Priced_example = continued_fraction-Priced (10 ^ 12 + 1) (10 ^ 7) (omega arith)
