-- ===== src/Network/Validation/Steps.antt =====
-- What the success of one step of a check says.
use master_recovery.Prelude.{
  ◌≡◌, refl, Bool, true, false, Option, none, some, Result, ok, err, ok_or, ◌>>◌, arith,
}
use master_recovery.Types.Basic.{Bytes}
use master_recovery.Wire.Frame.{WireError}
use master_recovery.Network.Validation.{ProtocolError, bail_if, written}

pub bail-ok :
    {A : Type 0} (bad : Bool) (error : ProtocolError) (rest : Result ProtocolError A) (a : A)
    → (bail_if bad error >> rest) ≡ ok a
    → (bad ≡ false) × (rest ≡ ok a)
unfolding bail_if
bail-ok true error rest a h = absurd (cc h)
bail-ok false error rest a h = (refl, h)

pub then-ok :
    {A B : Type 0} (first : Result ProtocolError A) (rest : Result ProtocolError B) (b : B)
    → (first >> rest) ≡ ok b
    → (a : A) × (first ≡ ok a) × (rest ≡ ok b)
then-ok (ok a) rest b h = (a, refl, h)
then-ok (err e) rest b h = absurd (cc h)

pub written-ok : (r : Result WireError Bytes) (t : Bytes) → written r ≡ ok t → r ≡ ok t
unfolding written
written-ok (ok s) t h = ground arith
written-ok (err e) t h = absurd (cc h)

pub found-ok :
    {A : Type 0} (o : Option A) (error : ProtocolError) (a : A) → ok_or o error ≡ ok a → o ≡ some a
found-ok none error a h = absurd (cc h)
found-ok (some b) error a h = ground arith

pub bail-last :
    (bad : Bool) (error : ProtocolError) (u : Unit {0}) → bail_if bad error ≡ ok u → bad ≡ false
unfolding bail_if
bail-last true error u h = absurd (cc h)
bail-last false error u h = refl
