-- ===== src/Session/Stranded.antt =====
-- A correction whose evidence is not written: `prepare_planner_response` of
-- src/cuda_fractal_state_tool/research_session.py.
use cuda_fractal_engine_stat.Prelude.{
  ◌+◌, Bool, true, false, not, ◌&&◌, none, String, ◌≡◌, refl, ap, ◌∙◌,
}
use cuda_fractal_engine_stat.RunStore.{evidence_write_failed, write_evidence_once, find_evidence}
use cuda_fractal_engine_stat.RunStore.Evidence.{write_evidence_once-fails}
use cuda_fractal_engine_stat.Response.{Host}
use cuda_fractal_engine_stat.Session.State.{
  planning, Core, Session, SessionError, illegal_state, no_correction, correction_required,
  store_failed, done, raised, Step, resume, ◌>>=◌, finish, fail, ensure, get_core, put, Disk, Codec,
  Services, write_evidence, stored, attempt_path,
}
use cuda_fractal_engine_stat.Session.Planning.{
  is_planning, claim_correction, prepare_planner_response, response_name,
}

abbrev pub refusal_of : Bool → SessionError
refusal_of true = no_correction
refusal_of false = correction_required

ensure-passes :
    {X : Type 0} (b : Bool) (e : SessionError) (next : Unit {0} → Step X) (s : Session)
    → b ≡ true
    → (ensure b e >>= next) s ≡ next tt s
unfolding ensure ◌>>=◌ finish fail
ensure-passes true e next s h = refl
ensure-passes false e next s h = cc

ensure-stops :
    {X : Type 0} (b : Bool) (e : SessionError) (next : Unit {0} → Step X) (s : Session)
    → b ≡ false
    → (ensure b e >>= next) s ≡ (s, raised e)
unfolding ensure ◌>>=◌ finish fail
ensure-stops false e next s h = refl
ensure-stops true e next s h = cc

ensure_stopped :
    (b : Bool) (e : SessionError) (s : Session) → b ≡ false → ensure b e s ≡ (s, raised e)
unfolding ensure fail
ensure_stopped false e s h = refl
ensure_stopped true e s h = cc

get-steps :
    {X : Type 0} (next : Core → Step X) (s : Session) → (get_core >>= next) s ≡ next s.core s
unfolding get_core ◌>>=◌
get-steps next s = refl

raised-stops :
    {X Y : Type 0} (m : Step X) (next : X → Step Y) (s : Session) {t : Session} {e : SessionError}
    → m s ≡ (t, raised e)
    → (m >>= next) s ≡ (t, raised e)
unfolding ◌>>=◌
raised-stops m next s h = ap (resume next) h

claim_refused :
    (correction : Bool) (s : Session)
    → s.core.correction_used ≡ true
    → s.core.correction_available ≡ true
    → claim_correction correction s ≡ (s, raised (refusal_of correction))
unfolding claim_correction get_core
claim_refused true s used available =
    get-steps _ s
    ∙ ensure-stops (not s.core.correction_used && s.core.correction_available) no_correction _ s
        (ap (λ b. not b && s.core.correction_available) used)
claim_refused false s used available =
    get-steps _ s
    ∙ ensure_stopped (not s.core.correction_available) correction_required s (ap not available)

-- A session whose correction is used and still called for refuses every response.
stranded_refuses :
    (host : Host) (codec : Codec) (services : Services) (disk : Disk) (response : String)
    (correction : Bool) (s : Session)
    → s.core.state ≡ planning
    → s.core.correction_used ≡ true
    → s.core.correction_available ≡ true
    → prepare_planner_response host codec services disk response correction s
      ≡ (s, raised (refusal_of correction))
unfolding prepare_planner_response
stranded_refuses host codec services disk response correction s at used available =
    get-steps _ s
    ∙ ensure-passes (is_planning s.core.state) illegal_state _ s (ap is_planning at)
    ∙ raised-stops (claim_correction correction) _ s (claim_refused correction s used available)

done-steps :
    {X Y : Type 0} (m : Step X) (next : X → Step Y) (s : Session) {t : Session} {x : X}
    → m s ≡ (t, done x)
    → (m >>= next) s ≡ next x t
unfolding ◌>>=◌
done-steps m next s h = ap (resume next) h

-- The session once its correction has been claimed.
abbrev pub claimed : Session → Session
claimed s = record s { core = record s.core { correction_used = true } }

claim_accepted :
    (s : Session)
    → s.core.correction_used ≡ false
    → s.core.correction_available ≡ true
    → claim_correction true s ≡ (claimed s, done tt)
unfolding claim_correction
claim_accepted s unused available =
    get-steps _ s
    ∙ ensure-passes (not s.core.correction_used && s.core.correction_available) no_correction _ s
        (ap (λ b. not b && s.core.correction_available) unused ∙ available)
    ∙ put_claimed s
  where
    put_claimed :
        (t : Session) → put (record t.core { correction_used = true }) t ≡ (claimed t, done tt)
    put_claimed t = unfold put in refl

write_fails :
    (disk : Disk) (path payload : String) (s : Session)
    → disk.writes path ≡ false
    → find_evidence path s.store.evidence ≡ none
    → write_evidence disk path payload s ≡ (s, raised (store_failed evidence_write_failed))
unfolding write_evidence
write_fails disk path payload s fails absent =
    ap (λ b. stored tt s (write_evidence_once b path payload s.store)) fails
    ∙ ap (stored tt s) (write_evidence_once-fails path payload s.store absent)
    ∙ unfold stored in refl

-- The path of a correction's evidence.
abbrev pub correction_path : Session → String
correction_path s = attempt_path (s.core.attempts_consumed + 1) "planner-response-correction.txt"

claimed_unwritten :
    (host : Host) (codec : Codec) (services : Services) (disk : Disk) (response : String)
    (s : Session)
    → s.core.state ≡ planning
    → s.core.correction_used ≡ false
    → s.core.correction_available ≡ true
    → disk.writes (correction_path s) ≡ false
    → find_evidence (correction_path s) s.store.evidence ≡ none
    → prepare_planner_response host codec services disk response true s
      ≡ (claimed s, raised (store_failed evidence_write_failed))
unfolding prepare_planner_response response_name
claimed_unwritten host codec services disk response s at unused available fails absent =
    get-steps _ s
    ∙ ensure-passes (is_planning s.core.state) illegal_state _ s (ap is_planning at)
    ∙ done-steps (claim_correction true) _ s (claim_accepted s unused available)
    ∙ raised-stops (write_evidence disk (correction_path s) response) _ (claimed s)
        (write_fails disk (correction_path s) response (claimed s) fails absent)

-- Where a planning session calls for its correction, and the evidence of the correction's response is
-- neither there nor can be written, the correction raises with the correction used and everything else
-- unchanged, and from then on every planner's response is refused and leaves the session as it is, with
-- any services and any disk, whether it is given as the correction or not.
pub correction_unwritten-refuses :
    (host : Host) (codec : Codec) (services later_services : Services) (disk later_disk : Disk)
    (response later : String) (correction : Bool) (s : Session)
    → s.core.state ≡ planning
    → s.core.correction_used ≡ false
    → s.core.correction_available ≡ true
    → disk.writes (correction_path s) ≡ false
    → find_evidence (correction_path s) s.store.evidence ≡ none
    → (prepare_planner_response host codec services disk response true s
        ≡ (claimed s, raised (store_failed evidence_write_failed)))
      × (prepare_planner_response host codec later_services later_disk later correction (claimed s)
          ≡ (claimed s, raised (refusal_of correction)))
correction_unwritten-refuses host codec services later_services disk later_disk response later
      correction s at unused available fails absent =
    (
      claimed_unwritten host codec services disk response s at unused available fails absent,
      stranded_refuses host codec later_services later_disk later correction (claimed s) at refl
          available,
    )
