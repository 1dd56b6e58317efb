-- ===== src/Server/Shadow/Driver/Ends.antt =====
-- harvest_shadow.rs: what a sweep should make of a row, apart from how it goes about it.
use Prim.Native.String.{◌++◌ as append}
use bigtop.Common.{◌≡◌, ◌⊎◌, inl, false, true, List, [], ◌∷◌, String}
use bigtop.Server.Shadow.{Verdict, as_str}
use bigtop.Server.Shadow.Audit.{ShadowOutput}
use bigtop.Server.Shadow.Driver.{Row, ExecutionOutcome, Codec, is_pending}
use bigtop.Server.Shadow.Driver.Places.{with_verdict}

-- The row that a pending row becomes, by what the engine says of its execution.
pub data Settles (codec : Codec) (now : String) (outcome : String → ExecutionOutcome ⊎ String)
    (r : Row) : Row → Type 0 where
  runs :
      (exec : String)
      → codec.execution_id r.execution_id ≡ inl exec
      → outcome exec ≡ inl ExecutionOutcome.running
      → Settles codec now outcome r r
  completed :
      (exec value json : String) (output : ShadowOutput)
      → codec.execution_id r.execution_id ≡ inl exec
      → outcome exec ≡ inl (ExecutionOutcome.completed value)
      → codec.output value ≡ inl output
      → codec.encode output.observations ≡ inl json
      → Settles codec now outcome r (with_verdict r (as_str output.verdict) json "" now)
  failed :
      (exec message json : String)
      → codec.execution_id r.execution_id ≡ inl exec
      → outcome exec ≡ inl (ExecutionOutcome.failed message)
      → codec.encode [] ≡ inl json
      → Settles codec now outcome r (with_verdict r (as_str Verdict.harvest_error) json message now)
  terminated :
      (exec state json : String)
      → codec.execution_id r.execution_id ≡ inl exec
      → outcome exec ≡ inl (ExecutionOutcome.terminated state)
      → codec.encode [] ≡ inl json
      → Settles codec now outcome r
          (with_verdict r (as_str Verdict.harvest_error) json (append "terminated as " state) now)

pub data Ends (codec : Codec) (now : String) (outcome : String → ExecutionOutcome ⊎ String)
    (r : Row) : Row → Type 0 where
  over : is_pending r ≡ false → Ends codec now outcome r r
  settles :
      {s : Row} → is_pending r ≡ true → Settles codec now outcome r s → Ends codec now outcome r s

-- Every row becomes the row in the same place.
abbrev pub AllEnds :
    Codec → String → (String → ExecutionOutcome ⊎ String) → List Row → List Row → Type 0
AllEnds codec now outcome [] [] = Unit
AllEnds codec now outcome [] (s ∷ ss) = ⊥
AllEnds codec now outcome (r ∷ rs) [] = ⊥
AllEnds codec now outcome (r ∷ rs) (s ∷ ss) =
    Ends codec now outcome r s × AllEnds codec now outcome rs ss
