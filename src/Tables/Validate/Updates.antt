-- ===== src/Tables/Validate/Updates.antt =====
-- An accepted upsert writes each column that it names with the one value that it gives for it.
use ubiquisync.Prelude.{ℕ, ◌≡◌, List, All}
use ubiquisync.Prelude.{Option, some}
use ubiquisync.Tables.Id.{Value}
use ubiquisync.Tables.Reducer.{update_of}

abbrev Updates : Type 0
Updates = List (ℕ × Option Value)

-- Every update of the second list is what the first has for its column.
abbrev Found : Updates → Updates → Type 0
Found us xs = All (λ (x : ℕ × Option Value). update_of x.0 us ≡ some x.1) xs
