-- ===== src/Log/Threads.antt =====
-- Several threads on the logging library: a method as its accesses to what the threads share, one at a
-- time, and its calls of `Mutex::lock` and `Mutex::unlock` of Utils/mutex.h.
pub mod Appending
pub mod Logging
pub mod Rules
pub mod Accesses
pub mod Managing
pub mod System
pub mod Calls
pub mod Invariant
pub mod Progress
pub mod Ending
pub mod Finishing
pub mod Race
pub mod Alone
pub mod Guarding
use rabbit_log_db.Base.{
  ℕ, suc, Bool, List, [], ◌∷◌, ◌++◌, Option, none, some, if◌then◌else◌, Bytes, length, get_elem?,
  set,
}
use rabbit_log_db.Log.World.{Appender, Logger, World, Outside, Lock, same_lock}

-- What a thread has still to do. Nothing of another thread comes between the reading and the writing of
-- one `access`, which goes on with what it has read. `crash` is the use of a null pointer.
pub data Prog (A : Type 0) : Type 0 where
  ret : A → Prog A
  access : (World → World) → (World → Prog A) → Prog A
  take drop : Lock → Prog A → Prog A
  crash out_of_fuel : Prog A

infixl 5 ◌>>=◌ ◌>>◌
unfoldable pub ◌>>=◌ : {A B : Type 0} → Prog A → (A → Prog B) → Prog B
ret a >>= g = g a
access f k >>= g = access f (λ w. k w >>= g)
take l p >>= g = take l (p >>= g)
drop l p >>= g = drop l (p >>= g)
crash >>= g = crash
out_of_fuel >>= g = out_of_fuel

abbrev pub ◌>>◌ : {B : Type 0} → Prog (Unit {0}) → Prog B → Prog B
p >> q = p >>= λ _. q

abbrev pub pure : {A : Type 0} → A → Prog A
pure a = ret a

-- `MutexType::Lock lock(m_mutex)` to the end of its scope.
unfoldable pub locked : {A : Type 0} → Lock → Prog A → Prog A
unfolding ◌>>=◌
locked l p = take l (p >>= λ a. drop l (ret a))

-- A pointer is followed.
unfoldable pub deref : {A : Type 0} → Option A → Prog A
deref none = crash
deref (some a) = ret a

-- The element at a position is changed, if there is one.
unfoldable pub modify : {A : Type 0} → List A → ℕ → (A → A) → List A
modify xs i g = elim (get_elem? xs i) [ none ↦ xs | some a ↦ set xs i (g a) ]

-- `Unit` in place of what was found.
unfoldable pub found : {A : Type 0} → Option A → Prog (Unit {0})
found none = crash
found (some a) = ret tt

unfoldable pub read_logger : ℕ → Prog Logger
unfolding deref
read_logger l = access (λ w. w) (λ w. deref (get_elem? w.loggers l))

unfoldable pub read_appender : ℕ → Prog Appender
unfolding deref
read_appender a = access (λ w. w) (λ w. deref (get_elem? w.appenders a))

-- A member is written.
unfoldable pub write_logger : ℕ → (Logger → Logger) → Prog (Unit {0})
unfolding modify found
write_logger l g =
    access (λ w. record w { loggers = modify w.loggers l g }) (λ w. found (get_elem? w.loggers l))

unfoldable pub write_appender : ℕ → (Appender → Appender) → Prog (Unit {0})
unfolding modify found
write_appender a g =
    access (λ w. record w { appenders = modify w.appenders a g })
      (λ w. found (get_elem? w.appenders a))

unfoldable pub new_logger_at : Logger → Prog ℕ
new_logger_at lg =
    access (λ w. record w { loggers = w.loggers ++ lg ∷ [] }) (λ w. ret (length w.loggers))

unfoldable pub new_appender_at : Appender → Prog ℕ
new_appender_at ap =
    access (λ w. record w { appenders = w.appenders ++ ap ∷ [] }) (λ w. ret (length w.appenders))

unfoldable pub print : Bytes → Prog (Unit {0})
print text = access (λ w. record w { console = w.console ++ text }) (λ w. ret tt)

unfoldable pub write : Bytes → Bytes → Prog (Unit {0})
write name text = access (λ w. record w { written = w.written ++ (name, text) ∷ [] }) (λ w. ret tt)

unfoldable pub open_file : Outside → Bytes → Prog Bool
open_file out name =
    access (λ w. record w { opens = suc w.opens }) (λ w. ret (out.open_for_write name w.opens))

-- A loop over a list.
unfoldable pub each : {A : Type 0} → List A → (A → Prog (Unit {0})) → Prog (Unit {0})
each [] f = pure tt
each (x ∷ xs) f = f x >> each xs f

-- A lock that is given back is not held any more.
unfoldable pub release : Lock → List Lock → List Lock
unfolding same_lock
release l [] = []
release l (h ∷ hs) = if same_lock l h then hs else h ∷ release l hs
