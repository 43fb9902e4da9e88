-- ===== src/Sss/Share.antt =====
-- Shares and errors of crates/leelo-sss/src/lib.rs.
use leelo.Base.{ℕ, List, Result, ok, err, ◌==◌, if◌then◌else◌}

pub data Error : Type 0 where
  invalid_threshold : ℕ → Error
  invalid_share_count : ℕ → Error
  insufficient_shares : ℕ → ℕ → Error
  zero_index : Error
  duplicate_index : ℕ → Error
  entropy_unavailable : Error
  inconsistent_shares : Error

abbrev pub secret_len : ℕ
secret_len = 32

abbrev pub max_shares : ℕ
max_shares = 31

-- A public coordinate and the secret value at it, `secret_len` bytes.
pub record Share : Type 0 where
  pub index : ℕ
  pub value : List ℕ

unfoldable pub from_parts : ℕ → List ℕ → Result Error Share
from_parts index value =
    if index == 0 then err zero_index else ok (record { index = index; value = value })
