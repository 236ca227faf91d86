-- ===== src/Models/Session.antt =====
-- A session of libs/db.py: what is committed, and what the session sees, with the writes that it
-- has flushed. An operation ends with a value or raises, in both cases with the session it leaves.
use autonomous_iq.Prelude.{◌≡◌, refl}
use autonomous_iq.Errors.{Response, ok, err, Failure}
use autonomous_iq.Models.Database.{Database}

pub record Session : Type 0 where
  pub committed : Database
  pub working : Database

-- `async with async_session_factory() as session`
abbrev pub opened : Database → Session
opened db = record { committed = db; working = db }

pub data Outcome (E : Type 0) (A : Type 0) : Type 0 where
  done : A → Session → Outcome E A
  raised : E → Session → Outcome E A

-- session.commit
abbrev pub commit : Session → Session
commit s = record s { committed = s.working }

-- session.add and session.flush of one row.
abbrev pub flush : {E : Type 0} → (Failure → E) → Response Database → Session → Outcome E (Unit {0})
flush fail (ok db) s = done tt (record s { working = db })
flush fail (err e) s = raised (fail e) s

infixl 5 ◌>>>◌
abbrev pub ◌>>>◌ : {E A B : Type 0} → Outcome E A → (A → Session → Outcome E B) → Outcome E B
(done a s) >>> f = f a s
(raised e s) >>> f = raised e s

-- The session that is left.
abbrev pub left : {E A : Type 0} → Outcome E A → Session
left (done a s) = s
left (raised e s) = s

-- A property of the sessions that each step keeps, the whole chain keeps.
pub left->>> :
    {E A B : Type 0} (P : Session → Type 0) (m : Outcome E A) (f : A → Session → Outcome E B)
    → P (left m)
    → ((a : A) (s : Session) → P s → P (left (f a s)))
    → P (left (m >>> f))
left->>> P (done a s) f h k = k a s h
left->>> P (raised e s) f h k = h

-- A chain that ends with a value has had one from its first part.
pub >>>-done :
    {E A B : Type 0} (m : Outcome E A) (f : A → Session → Outcome E B) {b : B} {s : Session}
    → (m >>> f) ≡ done b s
    → (a : A) × (s' : Session) × (m ≡ done a s') × (f a s' ≡ done b s)
>>>-done (done a s') f h = (a, s', refl, h)
>>>-done (raised e s') f h = cc
