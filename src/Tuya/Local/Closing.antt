-- ===== src/Tuya/Local/Closing.antt =====
-- tuya.py: `disconnect` of TuyaLocalDriver where closing a connection never raises.
use linker.Prelude.{ℕ, Bool, Option, none, some, ◌≡◌, refl}
use linker.Python.Exc.{Result, ok, err}
use linker.Python.Action.{then_call, ◌>>◌}
use linker.Tuya.Local.{Outside, TuyaLocalDriver, Io, disconnect, reset, close}

-- `wait_closed` returns whenever it is called.
abbrev pub ClosesQuietly : Outside → Type 0
ClosesQuietly out = (n : ℕ) → out.wait_closed n ≡ ok tt

close-ok :
    (out : Outside) (w : Option Bool) (s : TuyaLocalDriver)
    → ClosesQuietly out
    → (close out w s).0 ≡ ok tt
close-ok out none s quiet = refl
close-ok out (some closing) s quiet = quiet s.ticks

pub disconnect-ok :
    (out : Outside) (s : TuyaLocalDriver) → ClosesQuietly out → (disconnect out s).0 ≡ ok tt
unfolding disconnect
disconnect-ok out s quiet = close-ok out s.writer (reset s) quiet

then_call-ok :
    {A : Type 0} (r : Result (Unit {0}) × TuyaLocalDriver) (rest : Io A)
    → r.0 ≡ ok tt
    → then_call (λ _. rest) r ≡ rest r.1
then_call-ok (ok u, t) rest h = refl
then_call-ok (err e, t) rest h = cc

-- A block behind `disconnect`, which returns.
pub after_disconnect :
    {A : Type 0} (out : Outside) (s : TuyaLocalDriver) (rest : Io A)
    → ClosesQuietly out
    → (disconnect out >> rest) s ≡ rest (disconnect out s).1
after_disconnect out s rest quiet = then_call-ok (disconnect out s) rest (disconnect-ok out s quiet)
