-- ===== src/Session/Hoare.antt =====
-- What a step guarantees of the controller's state: on its result where it returns, and by an invariant
-- where it raises.
pub mod Review
use mathlib.Core.Path.{subst}
use cuda_fractal_engine_stat.Prelude.{
  Bool, true, false, Option, none, some, String, ◌≡◌, refl, sym, if◌then◌else◌,
}
use cuda_fractal_engine_stat.Json.Document.{Fields}
use cuda_fractal_engine_stat.RunStore
use cuda_fractal_engine_stat.RunStore.{Store}
use cuda_fractal_engine_stat.Response.{Refusal, Checked, accepted, rejected}
use cuda_fractal_engine_stat.Session.State.{
  Core, Session, SessionError, Outcome, done, raised, Step, resume, ◌>>=◌, finish, fail, ensure,
  get_core, put, checked, Disk, stored, write_evidence, record_event,
}

module _ (I : Core → Type 0) where
  abbrev pub Ends : {X : Type 0} → (X → Core → Type 0) → Session × Outcome X → Type 0
  Ends Q (s, done x) = Q x s.core
  Ends Q (s, raised e) = I s.core

  -- From this state of the controller, whatever the store holds, the step returns in a state of Q, or
  -- raises in a state of I.
  pub record Leads {X : Type 0} (d : Core) (m : Step X) (Q : X → Core → Type 0) : Type 0 where
    pub run : (store : Store) → Ends Q (m (record { core = d; store = store }))

  resume-Ends :
      {X Y : Type 0} (Q : X → Core → Type 0) (R : Y → Core → Type 0) (next : X → Step Y)
      (r : Session × Outcome X)
      → Ends Q r
      → ((x : X) (c : Core) → Q x c → Leads c (next x) R)
      → Ends R (resume next r)
  resume-Ends Q R next (s, done x) h k = (k x s.core h).run s.store
  resume-Ends Q R next (s, raised e) h k = h

  pub put-Leads :
      {Q : Unit {0} → Core → Type 0} {d : Core} (d' : Core) → Q tt d' → Leads d (put d') Q
  unfolding put
  put-Leads d' h = record { run = λ store. h }

  module _ {Y : Type 0} {R : Y → Core → Type 0} {d : Core} where
    pub bind-Leads :
        {X : Type 0} (m : Step X) (next : X → Step Y) (Q : X → Core → Type 0)
        → Leads d m Q
        → ((x : X) (c : Core) → Q x c → Leads c (next x) R)
        → Leads d (m >>= next) R
    unfolding ◌>>=◌
    bind-Leads m next Q h k = record {
      run = λ store. resume-Ends Q R next (m (record { core = d; store = store })) (h.run store) k;
    }

    pub get-then : (next : Core → Step Y) → Leads d (next d) R → Leads d (get_core >>= next) R
    unfolding ◌>>=◌ get_core
    get-then next h = record { run = λ store. h.run store }

    pub put-then :
        (d' : Core) (next : Unit {0} → Step Y) → Leads d' (next tt) R → Leads d (put d' >>= next) R
    unfolding ◌>>=◌ put
    put-then d' next h = record { run = λ store. h.run store }

    pub finish-then :
        {X : Type 0} (x : X) (next : X → Step Y)
        → Leads d (next x) R
        → Leads d (finish x >>= next) R
    unfolding ◌>>=◌ finish
    finish-then x next h = record { run = λ store. h.run store }

    pub finish-Leads : (y : Y) → R y d → Leads d (finish y) R
    unfolding finish
    finish-Leads y h = record { run = λ store. h }

  -- Steps that may raise want the invariant.
  module _ {d : Core} (sound : I d) where
    -- A step that leaves the controller's state alone.
    stored-Ends :
        {X Z : Type 0} (z : Z) (s : Session) (r : Store × RunStore.Result X)
        → s.core ≡ d
        → Ends (λ _ c. c ≡ d) (stored z s r)
    unfolding stored
    stored-Ends z s (store, RunStore.ok x) same = same
    stored-Ends z s (store, RunStore.err e) same = rw same sound

    write_evidence-Leads :
        (disk : Disk) (path payload : String)
        → Leads d (write_evidence disk path payload) (λ _ c. c ≡ d)
    unfolding write_evidence
    write_evidence-Leads disk path payload = record {
      run = λ store. stored-Ends tt (record { core = d; store = store }) _ refl;
    }

    record_event-Leads :
        (disk : Disk) (event_type : String) (payload : Fields)
        → Leads d (record_event disk event_type payload) (λ _ c. c ≡ d)
    unfolding record_event
    record_event-Leads disk event_type payload = record {
      run = λ store. stored-Ends tt (record { core = d; store = store }) _ refl;
    }

    pub ensure-Leads :
        {R : Unit {0} → Core → Type 0} (b : Bool) (e : SessionError)
        → (b ≡ true → R tt d)
        → Leads d (ensure b e) R
    unfolding ensure finish fail
    ensure-Leads true e h = record { run = λ store. h refl }
    ensure-Leads false e h = record { run = λ store. sound }

    module _ {Y : Type 0} {R : Y → Core → Type 0} where
      pub fail-Leads : (e : SessionError) → Leads d (fail {X = Y} e) R
      unfolding fail
      fail-Leads e = record { run = λ store. sound }

      pub fail-then :
          {X : Type 0} (e : SessionError) (next : X → Step Y) → Leads d (fail e >>= next) R
      unfolding ◌>>=◌ fail
      fail-then e next = record { run = λ store. sound }

      -- A step that only checks.
      pub stays-then :
          {X : Type 0} (m : Step X) (next : X → Step Y)
          → Leads d m (λ _ c. d ≡ c)
          → ((x : X) → Leads d (next x) R)
          → Leads d (m >>= next) R
      stays-then m next h k =
          bind-Leads m next (λ _ c. d ≡ c) h
            (λ x c same. subst (λ e. Leads e (next x) R) same (k x))

      pub write-then :
          (disk : Disk) (path payload : String) (next : Unit {0} → Step Y)
          → Leads d (next tt) R
          → Leads d (write_evidence disk path payload >>= next) R
      write-then disk path payload next h =
          bind-Leads (write_evidence disk path payload) next (λ _ c. c ≡ d)
            (write_evidence-Leads disk path payload)
            (λ _ c same. subst (λ e. Leads e (next tt) R) (sym same) h)

      pub record-then :
          (disk : Disk) (event_type : String) (payload : Fields) (next : Unit {0} → Step Y)
          → Leads d (next tt) R
          → Leads d (record_event disk event_type payload >>= next) R
      record-then disk event_type payload next h =
          bind-Leads (record_event disk event_type payload) next (λ _ c. c ≡ d)
            (record_event-Leads disk event_type payload)
            (λ _ c same. subst (λ e. Leads e (next tt) R) (sym same) h)

      pub ensure-then :
          (b : Bool) (e : SessionError) (next : Unit {0} → Step Y)
          → (b ≡ true → Leads d (next tt) R)
          → Leads d (ensure b e >>= next) R
      unfolding ◌>>=◌ ensure finish fail
      ensure-then true e next h = record { run = λ store. (h refl).run store }
      ensure-then false e next h = record { run = λ store. sound }

      pub checked-then :
          {X : Type 0} (wrap : Refusal → SessionError) (r : Checked X) (next : X → Step Y)
          → ((x : X) → r ≡ accepted x → Leads d (next x) R)
          → Leads d (checked wrap r >>= next) R
      unfolding ◌>>=◌ checked finish fail
      checked-then wrap (accepted x) next h = record { run = λ store. (h x refl).run store }
      checked-then wrap (rejected r) next h = record { run = λ store. sound }
