-- ===== src/Python/Exc.antt =====
-- Exceptions as values: a call returns a value or raises an instance of one of the classes that the
-- program raises or catches.
pub mod Raises
pub mod Returns
use linker.Prelude.{String, Bool, true, false, ◌≡◌, refl, ap, arith}

-- Each constructor is a class. `protocol_error` is tuya.py's TuyaProtocolError, `envelope_error` is
-- protocol.py's ProtocolError, `configuration_error` is tuya.py's TuyaConfigurationError and
-- `runtime_config_error` is runtime_config.py's RuntimeConfigError.
pub data Exc : Type 0 where
  key_error value_error type_error protocol_error configuration_error pairing_error : String → Exc
  envelope_error runtime_config_error overflow_error struct_error os_error : String → Exc
  connection_error timeout_error incomplete_read recursion_error : String → Exc
  cancelled : Exc

-- `str(error)`
abbrev pub message : Exc → String
message (key_error m) = m
message (value_error m) = m
message (type_error m) = m
message (protocol_error m) = m
message (configuration_error m) = m
message (pairing_error m) = m
message (envelope_error m) = m
message (runtime_config_error m) = m
message (overflow_error m) = m
message (struct_error m) = m
message (os_error m) = m
message (connection_error m) = m
message (timeout_error m) = m
message (incomplete_read m) = m
message (recursion_error m) = m
message cancelled = ""

-- `isinstance(error, ValueError)`: the program's own errors are its subclasses.
abbrev pub is_value_error : Exc → Bool
is_value_error (value_error m) = true
is_value_error (protocol_error m) = true
is_value_error (configuration_error m) = true
is_value_error (pairing_error m) = true
is_value_error (envelope_error m) = true
is_value_error (runtime_config_error m) = true
is_value_error _ = false

-- `except TuyaProtocolError`
abbrev pub is_protocol_error : Exc → Bool
is_protocol_error (protocol_error m) = true
is_protocol_error _ = false

-- `except ProtocolError` of server_client.py
abbrev pub is_envelope_error : Exc → Bool
is_envelope_error (envelope_error m) = true
is_envelope_error _ = false

-- `except OSError`: ConnectionError and TimeoutError are its subclasses.
abbrev pub is_os_error : Exc → Bool
is_os_error (os_error m) = true
is_os_error (connection_error m) = true
is_os_error (timeout_error m) = true
is_os_error _ = false

abbrev pub is_overflow_error : Exc → Bool
is_overflow_error (overflow_error m) = true
is_overflow_error _ = false

-- `except Exception`: a cancellation is no Exception.
abbrev pub is_exception : Exc → Bool
is_exception cancelled = false
is_exception _ = true

-- `except (KeyError, TypeError, ValueError)`
abbrev pub is_bad_request : Exc → Bool
is_bad_request (key_error m) = true
is_bad_request (type_error m) = true
is_bad_request e = is_value_error e

pub data Result {ℓ} (A : Type ℓ) : Type ℓ where
  ok : A → Result A
  err : Exc → Result A

-- The rest of a block, `next`, runs only where the call before it returns.
infixl 5 ◌>>=◌
abbrev pub ◌>>=◌ {ℓ κ} : {A : Type ℓ} {B : Type κ} → Result A → (A → Result B) → Result B
err raised >>= next = err raised
ok returned >>= next = next returned

-- `if not test: raise e`
abbrev pub guard : Bool → Exc → Result (Unit {0})
guard true e = ok tt
guard false e = err e

-- `if test: raise e`
abbrev pub raise_if : Bool → Exc → Result (Unit {0})
raise_if true e = err e
raise_if false e = ok tt

infixl 5 ◌>>◌
abbrev pub ◌>>◌ {ℓ} : {B : Type ℓ} → Result (Unit {0}) → Result B → Result B
check >> next = check >>= λ _. next

-- `except classes: raise e from error`
abbrev pub reraise {ℓ} : {A : Type ℓ} → (Exc → Bool) → Exc → Result A → Result A
reraise caught e (ok a) = ok a
reraise caught e (err f) = elim (caught f) [ true ↦ err e | false ↦ err f ]

-- A block that returned: its first call did, and so did the rest of it.
pub >>=-eq-ok {ℓ κ} :
    {A : Type ℓ} {B : Type κ} (call : Result A) (next : A → Result B) {b : B}
    → call >>= next ≡ ok b
    → (a : A) × (call ≡ ok a) × (next a ≡ ok b)
>>=-eq-ok (err raised) next h = cc
>>=-eq-ok (ok returned) next h = (returned, refl, h)

pub reraise-eq-ok {ℓ} :
    {A : Type ℓ} (caught : Exc → Bool) (e : Exc) (r : Result A) {a : A}
    → reraise caught e r ≡ ok a
    → r ≡ ok a
reraise-eq-ok caught e (ok x) h = h
reraise-eq-ok caught e (err f) h = ground arith

-- Where every exception is caught, the new one is raised.
pub reraise-eq-err {ℓ} :
    {A : Type ℓ} (caught : Exc → Bool) (e : Exc) (r : Result A) {f : Exc}
    → ((g : Exc) → r ≡ err g → caught g ≡ true)
    → reraise caught e r ≡ err f
    → f ≡ e
reraise-eq-err caught e (ok x) all h = cc
reraise-eq-err caught e (err g) all h = ground (arith, all g refl)

abbrev value_or {ℓ} : {A : Type ℓ} → A → Result A → A
value_or a (ok b) = b
value_or a (err e) = a

pub ok-injective {ℓ} : {A : Type ℓ} {a b : A} → ok a ≡ ok b → a ≡ b
ok-injective {a = a} h = ap (value_or a) h

abbrev error_or {ℓ} : {A : Type ℓ} → Exc → Result A → Exc
error_or e (ok b) = e
error_or e (err f) = f

pub err-injective {ℓ} : {A : Type ℓ} {e f : Exc} → Path (Result A) (err e) (err f) → e ≡ f
err-injective {e = e} h = ap (error_or e) h
