-- ===== src/Cli/Replies.antt =====
-- main.rs: what a command that succeeds got from the server.
use Prim.Native.String.{◌++◌ as append}
use bigtop.Common.{
  ℕ, ◌≡◌, ◌⊎◌, inl, inr, refl, subst, Bool, true, Option, none, some, List, [], ◌∷◌, arith,
  Bool-cases, String, All, All-imp, find,
}
use bigtop.Common.Sorted.{In}
use bigtop.Core.Error.{
  Error, Result, ok, err, not_found, invalid_job_spec, conflict, persistence, serde,
}
use bigtop.Server.Api.{Response, success, failure, respond, into_response}
use bigtop.Cli.{Client, Reply, got, rejected, bad_body, unreachable, expect, get_json, ◌>>=◌}
use bigtop.Cli.Restore.{with_context}

pub >>=-eq-inl {ℓ κ} :
    {A : Type ℓ} {B : Type κ} (m : A ⊎ String) (f : A → B ⊎ String) {b : B}
    → (m >>= f) ≡ inl b
    → (a : A) × (m ≡ inl a) × (f a ≡ inl b)
>>=-eq-inl (inl a) f h = (a, refl, h)
>>=-eq-inl (inr e) f h = cc

pub with_context-eq-inl {ℓ} :
    {A : Type ℓ} (o : Option A) (message : String) {a : A}
    → with_context o message ≡ inl a
    → o ≡ some a
with_context-eq-inl none message h = cc
with_context-eq-inl (some b) message h = cc

pub expect-eq-inl {ℓ} :
    {A : Type ℓ} (a b c : String) (r : Reply A) {body : A}
    → expect a b c r ≡ inl body
    → r ≡ got body
unfolding expect
expect-eq-inl a b c (got x) h = cc
expect-eq-inl a b c (rejected status) h = cc
expect-eq-inl a b c bad_body h = cc
expect-eq-inl a b c unreachable h = cc

pub get_json-eq-inl {ℓ} :
    {A : Type ℓ} (client : Client ⊎ String) (fetch : Client → String → Reply A)
    (server path : String) {a : A}
    → get_json client fetch server path ≡ inl a
    → (c : Client) × (fetch c (append server path) ≡ got a)
unfolding get_json
get_json-eq-inl client fetch server path h =
    let (c, built, replied) = >>=-eq-inl client _ h in
    (c, expect-eq-inl _ _ _ (fetch c (append server path)) replied)

pub find-eq-some {ℓ κ} :
    {A : Type ℓ} (P : A → Type κ) (p : A → Bool) (xs : List A) {x : A}
    → All P xs
    → find p xs ≡ some x
    → P x × (p x ≡ true)
find-eq-some P p [] all h = absurd (ground arith)
find-eq-some P p (y ∷ xs) {x} all h = elim (Bool-cases (p y)) [
  | inl hit ↦
      let same : y ≡ x = ground arith in (subst P same all.0, subst (λ z. p z ≡ true) same hit)
  | inr miss ↦ find-eq-some P p xs all.1 (ground arith)
]

pub All-In {ℓ} : {A : Type ℓ} (xs : List A) → All (λ x. In x xs) xs
All-In [] = tt
All-In (x ∷ xs) = (In.first, All-imp _ _ xs (λ y h. In.later h) (All-In xs))

-- What the client makes of a handler's response.
abbrev pub reply_of {ℓ} : {A : Type ℓ} → Response A → Reply A
reply_of (success status body) = got body
reply_of (failure status message) = rejected status

pub got-eq-got {ℓ} : {A : Type ℓ} {a b : A} → got a ≡ got b → a ≡ b
got-eq-got h = cc

not-got {ℓ} : {A : Type ℓ} (e : Error) {a : A} → ¬ (reply_of (into_response {A = A} e) ≡ got a)
unfolding into_response
not-got (not_found message) h = cc
not-got (invalid_job_spec message) h = cc
not-got (conflict message) h = cc
not-got (persistence message) h = cc
not-got (serde message) h = cc

-- A reply with a body is that of a handler that succeeded.
pub respond-got {ℓ κ} :
    {A : Type ℓ} {B : Type κ} (status : ℕ) (f : A → B) (r : Result A) {body : B}
    → reply_of (respond status f r) ≡ got body
    → (a : A) × (r ≡ ok a) × (f a ≡ body)
unfolding respond
respond-got status f (ok a) h = (a, refl, got-eq-got h)
respond-got status f (err e) h = absurd (not-got e h)
