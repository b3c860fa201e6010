-- ===== src/Stm/Ref.antt =====
-- `Ref` of src/basilisp/lang/stm.py, with the validation that it inherits from
-- src/basilisp/lang/reference.py. A Ref is known by a number, as `id` does in the source, and the
-- store maps each number to the Ref's fields. `V` is the type of the values of the program.
use baisilisp.Base.{
  ◌≡◌, refl, ◌⊎◌, inl, inr, ℕ, Bool, Option, none, some, List, [], ◌∷◌, ◌++◌, ltb, if◌then◌else◌,
  length,
}
use baisilisp.Base.Int.{ℤ, pos, negsuc, pos_part, ltb_ℤ, leb_ℤ}

-- The exceptions, one for each `raise`; `user` is what a function of the program raised.
pub data Error : Type 0 where
  alter_after_commute ref_set_after_commute invalid_state no_transaction nested_max_attempts : Error
  history_not_numeric history_not_finite history_overflow : Error
  attempts_type attempts_value conflict_limit awaitable_result not_callable io_in_transaction :
      Error
  not_a_ref : Error
  user : ℕ → Error

pub data Result {ℓ} (A : Type ℓ) : Type ℓ where
  ok : A → Result A
  raise : Error → Result A

infixl 5 ◌>>=◌ ◌>>◌
abbrev pub ◌>>=◌ {ℓ κ} : {A : Type ℓ} {B : Type κ} → Result A → (A → Result B) → Result B
ok a >>= f = f a
raise e >>= f = raise e

abbrev pub ◌>>◌ {ℓ} : {B : Type ℓ} → Result (Unit {0}) → Result B → Result B
m >> k = m >>= λ _. k

-- Inversion of a successful bind.
pub >>=-eq-ok {ℓ κ} :
    {A : Type ℓ} {B : Type κ} (outcome : Result A) (next : A → Result B) {out : B}
    → (outcome >>= next) ≡ ok out
    → (x : A) × (outcome ≡ ok x) × (next x ≡ ok out)
>>=-eq-ok (raise e) next done = cc
>>=-eq-ok (ok x) next done = (x, refl, done)

pub Result-cases {ℓ} :
    {A : Type ℓ} (m : Result A) → ((a : A) × (m ≡ ok a)) ⊎ ((e : Error) × (m ≡ raise e))
Result-cases (ok a) = inl (a, refl)
Result-cases (raise e) = inr (e, refl)

pub ok-injective {ℓ} : {A : Type ℓ} {a b : A} → ok a ≡ ok b → a ≡ b
ok-injective h = cc

-- What the history controls are given. A number that `int` refuses is a NaN or an infinity.
pub data Control : Type 0 where
  not_number : Control
  not_finite : Control
  number : ℤ → Control

-- `_history_limit`: a signed 32-bit integer, or an error.
unfoldable pub history_limit : Control → Result ℤ
history_limit not_number = raise history_not_numeric
history_limit not_finite = raise history_not_finite
history_limit (number n) =
    if leb_ℤ (negsuc 2147483647) n
    then (if ltb_ℤ n (pos 2147483648) then ok n else raise history_overflow)
    else raise history_overflow

-- The fields of a Ref. A validator that raises gives `none`.
pub record Ref (V : Type 0) : Type 0 where
  pub state : V
  pub version : ℕ
  pub history : List V
  pub min_history : ℤ
  pub max_history : ℤ
  pub validator : Option (V → Option Bool)

abbrev pub Store : Type 0 → Type 0
Store V = ℕ → Ref V

module _ {V : Type 0} where
  -- `_validate`: an exception of the validator counts as a refusal.
  unfoldable pub validate : Option (V → Option Bool) → V → Result (Unit {0})
  validate none v = ok tt
  validate (some vf) v = elim (vf v) [
    | none ↦ raise invalid_state
    | some b ↦ if b then ok tt else raise invalid_state
  ]

  -- `Ref.__init__`
  unfoldable pub make_ref : V → Option (V → Option Bool) → Result (Ref V)
  unfolding validate
  make_ref v validator = do
    validate validator v
    ok (record {
      state = v;
      version = 0;
      history = [];
      min_history = pos 0;
      max_history = pos 10;
      validator = validator;
    })

  unfoldable pub history_count : Ref V → ℕ
  history_count r = length r.history

  unfoldable pub set_min_history : Control → Ref V → Result (Ref V)
  unfolding history_limit
  set_min_history c r = do n ← history_limit c; ok (record r { min_history = n })

  unfoldable pub set_max_history : Control → Ref V → Result (Ref V)
  unfolding history_limit
  set_max_history c r = do n ← history_limit c; ok (record r { max_history = n })

  -- `_record_history`: at most one value more, and never past the configured minimum.
  unfoldable pub record_history : V → Ref V → Ref V
  record_history v r =
      if ltb (length r.history) (pos_part r.min_history)
      then record r { history = r.history ++ v ∷ [] }
      else r

  -- `set_validator`: a new validator must accept the value that the Ref holds.
  unfoldable pub set_validator : Option (V → Option Bool) → Ref V → Result (Ref V)
  unfolding validate
  set_validator none r = ok (record r { validator = none })
  set_validator (some vf) r = do validate (some vf) r.state; ok (record r { validator = some vf })
