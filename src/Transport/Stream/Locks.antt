-- ===== src/Transport/Stream/Locks.antt =====
-- The locks of pkg/transport/stream.go: `Send` holds the stream's read lock while `Message.Write`
-- calls `Write`, which takes it again; `Close` of another goroutine takes the write lock. A
-- `sync.RWMutex` lets no reader in while a writer waits, as its documentation says.
use gunnel.Prelude.{
  ℕ, ◌+◌, ◌-◌, ◌≡◌, ◌⊎◌, ◌↔◌, refl, Bool, true, false, ◌||◌, Option, none, some, ◌==◌,
  if◌then◌else◌, inl, inr, arith,
}

pub record RwMutex : Type 0 where
  pub readers : ℕ
  pub writer_waits : Bool
  pub writing : Bool

abbrev pub unlocked : RwMutex
unlocked = record { readers = 0; writer_waits = false; writing = false }

-- None while the caller has to wait.
unfoldable pub r_lock : RwMutex → Option RwMutex
r_lock mu =
    if mu.writer_waits || mu.writing then none else some (record mu { readers = mu.readers + 1 })

unfoldable pub r_unlock : RwMutex → RwMutex
r_unlock mu = record mu { readers = mu.readers - 1 }

-- `Lock` announces the writer, and returns once no reader is left.
unfoldable pub announce : RwMutex → RwMutex
announce mu = record mu { writer_waits = true }

unfoldable pub lock : RwMutex → Option RwMutex
lock mu =
    if mu.readers == 0 then some (record mu { writer_waits = false; writing = true }) else none

unfoldable pub unlock : RwMutex → RwMutex
unlock mu = record mu { writing = false }

-- Where the goroutine in `Send` is, and the one in `Close`.
pub data Sender : Type 0 where
  starts in_send in_write after_write sent : Sender

pub data Closer : Type 0 where
  begins waits closes closed : Closer

pub record State : Type 0 where
  pub mu : RwMutex
  pub sender : Sender
  pub closer : Closer

abbrev pub at : RwMutex → Sender → Closer → State
at mu s c = record { mu = mu; sender = s; closer = c }

pub data Step : State → State → Type 0 where
  enters_send :
      {mu mu' : RwMutex} {c : Closer}
      → r_lock mu ≡ some mu'
      → Step (at mu starts c) (at mu' in_send c)
  enters_write :
      {mu mu' : RwMutex} {c : Closer}
      → r_lock mu ≡ some mu'
      → Step (at mu in_send c) (at mu' in_write c)
  leaves_write :
      (mu : RwMutex) (c : Closer) → Step (at mu in_write c) (at (r_unlock mu) after_write c)
  leaves_send : (mu : RwMutex) (c : Closer) → Step (at mu after_write c) (at (r_unlock mu) sent c)
  asks : (mu : RwMutex) (s : Sender) → Step (at mu s begins) (at (announce mu) s waits)
  enters_close :
      {mu mu' : RwMutex} {s : Sender} → lock mu ≡ some mu' → Step (at mu s waits) (at mu' s closes)
  leaves_close : (mu : RwMutex) (s : Sender) → Step (at mu s closes) (at (unlock mu) s closed)

pub data Reachable : State → Type 0 where
  start : Reachable (at unlocked starts begins)
  next : {a b : State} → Reachable a → Step a b → Reachable b

abbrev held : Sender → ℕ
held starts = 0
held in_send = 1
held in_write = 2
held after_write = 1
held sent = 0

abbrev is_waiting : Closer → Bool
is_waiting waits = true
is_waiting _ = false

abbrev is_closing : Closer → Bool
is_closing closes = true
is_closing _ = false

-- The mutex knows who holds it, and a writer is alone.
record IsSound (st : State) : Type 0 where
  readers : st.mu.readers ≡ held st.sender
  writer_waits : st.mu.writer_waits ≡ is_waiting st.closer
  writing : st.mu.writing ≡ is_closing st.closer
  alone : st.mu.writing ≡ false ⊎ st.mu.readers ≡ 0

Step-IsSound : {a b : State} → IsSound a → Step a b → IsSound b
unfolding r_lock r_unlock announce lock unlock
Step-IsSound i (enters_send {c} e) = ground (arith, i.readers, i.writer_waits, i.writing, i.alone)
Step-IsSound i (enters_write {c} e) = ground (arith, i.readers, i.writer_waits, i.writing, i.alone)
Step-IsSound i (leaves_write mu c) = ground (arith, i.readers, i.writer_waits, i.writing, i.alone)
Step-IsSound i (leaves_send mu c) = ground (arith, i.readers, i.writer_waits, i.writing, i.alone)
Step-IsSound i (asks mu s) = ground (arith, i.readers, i.writer_waits, i.writing, i.alone)
Step-IsSound i (enters_close {s} e) = ground (arith, i.readers, i.writer_waits, i.writing, i.alone)
Step-IsSound i (leaves_close mu s) = ground (arith, i.readers, i.writer_waits, i.writing, i.alone)

Reachable-IsSound : {st : State} → Reachable st → IsSound st
Reachable-IsSound start = record {
  readers = refl;
  writer_waits = refl;
  writing = refl;
  alone = inl refl;
}
Reachable-IsSound (next run step) = Step-IsSound (Reachable-IsSound run) step

-- `Send` is between its own lock and the one of `Write`, and `Close` waits for `Send`.
pub record IsDeadlocked (st : State) : Type 0 where
  pub sender : st.sender ≡ in_send
  pub closer : st.closer ≡ waits

pub record IsFinished (st : State) : Type 0 where
  pub sender : st.sender ≡ sent
  pub closer : st.closer ≡ closed

abbrev Moves : State → Type 0
Moves st = (st' : State) × Step st st'

r_lock_free :
    (mu : RwMutex)
    → mu.writer_waits ≡ false
    → mu.writing ≡ false
    → r_lock mu ≡ some (record mu { readers = mu.readers + 1 })
unfolding r_lock
r_lock_free mu a b = ground (arith, a, b)

lock_free :
    (mu : RwMutex)
    → mu.readers ≡ 0
    → lock mu ≡ some (record mu { writer_waits = false; writing = true })
unfolding lock
lock_free mu a = ground (arith, a)

progress :
    (mu : RwMutex) (s : Sender) (c : Closer)
    → IsSound (at mu s c)
    → Moves (at mu s c) ⊎ (IsFinished (at mu s c) ⊎ IsDeadlocked (at mu s c))
progress mu s begins i = inl (_, asks mu s)
progress mu s closes i = inl (_, leaves_close mu s)
progress mu in_write c i = inl (_, leaves_write mu c)
progress mu after_write c i = inl (_, leaves_send mu c)
progress mu starts waits i = inl (_, enters_close (lock_free mu i.readers))
progress mu sent waits i = inl (_, enters_close (lock_free mu i.readers))
progress mu in_send waits i = inr (inr (record { sender = refl; closer = refl }))
progress mu starts closed i = inl (_, enters_send (r_lock_free mu i.writer_waits i.writing))
progress mu in_send closed i = inl (_, enters_write (r_lock_free mu i.writer_waits i.writing))
progress mu sent closed i = inr (inl (record { sender = refl; closer = refl }))

finished_stays : {a b : State} → IsFinished a → ¬ Step a b
finished_stays f (enters_send e) = ground (arith, f.sender)
finished_stays f (enters_write e) = ground (arith, f.sender)
finished_stays f (leaves_write mu c) = ground (arith, f.sender)
finished_stays f (leaves_send mu c) = ground (arith, f.sender)
finished_stays f (asks mu s) = ground (arith, f.closer)
finished_stays f (enters_close e) = ground (arith, f.closer)
finished_stays f (leaves_close mu s) = ground (arith, f.closer)

deadlocked_stays : {a b : State} → IsSound a → IsDeadlocked a → ¬ Step a b
unfolding r_lock lock
deadlocked_stays i d (enters_send e) = ground (arith, d.sender)
deadlocked_stays i d (enters_write {c} e) = ground (arith, d.closer, i.writer_waits)
deadlocked_stays i d (leaves_write mu c) = ground (arith, d.sender)
deadlocked_stays i d (leaves_send mu c) = ground (arith, d.sender)
deadlocked_stays i d (asks mu s) = ground (arith, d.closer)
deadlocked_stays i d (enters_close {s} e) = ground (arith, d.sender, i.readers)
deadlocked_stays i d (leaves_close mu s) = ground (arith, d.closer)

abbrev pub middle : RwMutex
middle = record { readers = 1; writer_waits = false; writing = false }

pub deadlock-Reachable : Reachable (at (record middle { writer_waits = true }) in_send waits)
unfolding announce r_lock
deadlock-Reachable = next (next start (enters_send {mu' = middle} refl)) (asks middle in_send)

-- While one goroutine is in `Send` and another in `Close` of one stream, they get on up to the end
-- of both, but in one case: `Close` asked for the lock after `Send` took its own read lock and
-- before `Write` takes its. In exactly that case neither ever moves again before both have ended.
pub deadlock_iff :
    (st : State)
    → Reachable st
    → (¬ ((st' : State) × Step st st')) ↔ (IsFinished st ⊎ IsDeadlocked st)
deadlock_iff st run = (
  (λ h. elim (progress st.mu st.sender st.closer (Reachable-IsSound run)) [
    | inl m ↦ absurd (h m)
    | inr r ↦ r
  ]),
  (λ r m. elim r [
    | inl f ↦ finished_stays f m.1
    | inr d ↦ deadlocked_stays (Reachable-IsSound run) d m.1
  ]),
)
