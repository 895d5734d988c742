-- ===== src/Base/Exceptions.antt =====
-- The exceptions that the modelled code raises, and the monad of a call that may raise.
use mathlib.Core.Path.{◌≡◌, refl}
use mathlib.Core.Bool.{Bool, true, false}
use mathlib.Core.Logic.{◌⊎◌, inl, inr}
use Prim.Native.Nat.{ℕ}

pub data Error : Type 0 where
  value_error type_error key_error runtime_error assertion_error connection_error timeout_error :
      Error
  circuit_open_error deadline_exceeded backpressure_error no_route_error : Error
  invalid_magic unsupported_version invalid_message_type invalid_frame_length frame_too_large :
      Error
  decode_error struct_error incomplete_read_error : Error
  causal_unavailable persistence_unavailable persistence_backpressure repository_integrity
        node_identity_mismatch :
      Error
  local_overloaded peer_unavailable peer_transport_error : Error
  peer_application_error : ℕ → Error

pub data Result {ℓ} (A : Type ℓ) : Type ℓ where
  ok : A → Result A
  raise : Error → Result A

-- `if c: raise e`
abbrev pub raise_if : Bool → Error → Result (Unit {0})
raise_if true e = raise e
raise_if false e = ok tt

-- what follows a call is skipped if the call raises
infixl 5 ◌>>=◌ ◌>>◌
abbrev pub ◌>>=◌ {κ μ} : {V : Type κ} {W : Type μ} → Result V → (V → Result W) → Result W
raise e >>= rest = raise e
ok a >>= rest = rest a

abbrev pub ◌>>◌ {μ} : {W : Type μ} → Result (Unit {0}) → Result W → Result W
raise e >> rest = raise e
ok _ >> rest = rest

-- a chain that succeeds has a first call that does
pub >>=-eq-ok {κ μ} :
    {V : Type κ} {W : Type μ} (call : Result V) (rest : V → Result W) {w : W}
    → (call >>= rest) ≡ ok w
    → (v : V) × (call ≡ ok v) × (rest v ≡ ok w)
>>=-eq-ok (raise e) rest h = cc
>>=-eq-ok (ok v) rest h = (v, refl, h)

pub ok-injective {κ} : {V : Type κ} {v w : V} → ok v ≡ ok w → v ≡ w
ok-injective e = cc

pub Result-cases {κ} :
    {V : Type κ} (r : Result V) → ((v : V) × (r ≡ ok v)) ⊎ ((e : Error) × (r ≡ raise e))
Result-cases (ok v) = inl (v, refl)
Result-cases (raise e) = inr (e, refl)

pub raise-injective {κ} :
    {V : Type κ} {d e : Error} → ◌≡◌ {A = Result V} (raise d) (raise e) → d ≡ e
raise-injective h = cc
