-- ===== src/Core/Error.antt =====
-- crates/bigtop-core/src/error.rs, and Rust's `Result` over it. The variant `Serde` carries an error
-- of the JSON library, of which the model keeps the text.
use bigtop.Common.{String}

pub data Error : Type 0 where
  not_found invalid_job_spec conflict persistence serde : String → Error

pub data Result {ℓ} (A : Type ℓ) : Type ℓ where
  ok : A → Result A
  err : Error → Result A
