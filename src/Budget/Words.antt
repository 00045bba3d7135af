-- ===== src/Budget/Words.antt =====
-- Usages of internal/budget/ledger.go as vectors of 64-bit words.
use agentapi_doctor.Common.{◌<◌, ◌≡◌, true, arith}
use agentapi_doctor.Budget.{Usage, add, subtract, is_valid_usage}

-- Every counter is a 64-bit word.
pub record IsWords (u : Usage) : Type 0 where
  pub w1 : u.requests < 18446744073709551616
  pub w2 : u.request_bytes < 18446744073709551616
  pub w3 : u.response_bytes < 18446744073709551616
  pub w4 : u.artifact_bytes < 18446744073709551616
  pub w5 : u.processes < 18446744073709551616
  pub w6 : u.input_tokens < 18446744073709551616
  pub w7 : u.output_tokens < 18446744073709551616

pub add_comm : (u v : Usage) → add u v ≡ add v u
unfolding add
add_comm u v = ground arith

pub add_assoc : (u v w : Usage) → add (add u v) w ≡ add u (add v w)
unfolding add
add_assoc u v w = ground arith

pub add-IsWords : (u v : Usage) → IsWords (add u v)
unfolding add
add-IsWords u v = omega arith

pub subtract-IsWords : (u v : Usage) → IsWords (subtract u v)
unfolding subtract
subtract-IsWords u v = omega arith

-- Adding and taking away again.
pub subtract-add : (u v : Usage) → IsWords u → IsWords v → subtract (add u v) v ≡ u
unfolding add subtract
subtract-add u v p q = ground arith

-- Taking away commutes with adding.
pub add-subtract : (u v w : Usage) → IsWords w → add u (subtract v w) ≡ subtract (add u v) w
unfolding add subtract
add-subtract u v w p = ground arith

pub IsWords-valid : (u : Usage) → is_valid_usage u ≡ true → IsWords u
IsWords-valid u h = ground arith
