-- ===== src/RunStore/Evidence.antt =====
-- Evidence, immutable and replaceable: `write_evidence_once_bytes` and `write_evidence_bytes` of
-- src/cuda_fractal_state_tool/automated_run_store.py.
use cuda_fractal_engine_stat.Prelude.{
  Bool, true, false, Option, none, some, List, [], ◌∷◌, All, String, str_eq, eq_iff, if◌then◌else◌,
  ◌≡◌, refl, ap, ◌∙◌, arith,
}
use cuda_fractal_engine_stat.RunStore.{
  Store, ok, err, evidence_differs, evidence_write_failed, find_evidence, write_once,
  write_evidence_once, write_evidence_bytes,
}

-- What a write adds covers nothing that is there.
write_once-keeps :
    (written : Bool) (path payload : String) (held : Option String) (s : Store) (q v : String)
    → find_evidence path s.evidence ≡ held
    → find_evidence q s.evidence ≡ some v
    → find_evidence q (write_once written path payload held s).0.evidence ≡ some v
unfolding write_once
write_once-keeps written path payload (some old) s q v at h = ground (arith)
write_once-keeps true path payload none s q v at h =
    unfold find_evidence in ground (arith, eq_iff path q)
write_once-keeps false path payload none s q v at h = h

write_evidence_once-keeps :
    (written : Bool) (path payload : String) (s : Store) (q v : String)
    → find_evidence q s.evidence ≡ some v
    → find_evidence q (write_evidence_once written path payload s).0.evidence ≡ some v
unfolding write_evidence_once
write_evidence_once-keeps written path payload s q v h =
    write_once-keeps written path payload (find_evidence path s.evidence) s q v refl h

-- A write of evidence, with whether the disk takes it, its path and its payload.
pub data Write : Type 0 where
  once : Bool → String → String → Write
  replacing : Bool → String → String → Write

unfoldable pub apply_write : Write → Store → Store
apply_write (once written path payload) s = (write_evidence_once written path payload s).0
apply_write (replacing written path payload) s = (write_evidence_bytes written path payload s).0

unfoldable pub write_all : List Write → Store → Store
unfolding apply_write
write_all [] s = s
write_all (w ∷ ws) s = write_all ws (apply_write w s)

abbrev pub replaces : String → Write → Bool
replaces q (once written path payload) = false
replaces q (replacing written path payload) = str_eq path q

abbrev pub Spares : String → List Write → Type 0
Spares q ws = All (λ w. replaces q w ≡ false) ws

apply_write-keeps :
    (w : Write) (s : Store) (q v : String)
    → replaces q w ≡ false
    → find_evidence q s.evidence ≡ some v
    → find_evidence q (apply_write w s).evidence ≡ some v
unfolding apply_write write_evidence_bytes find_evidence
apply_write-keeps (once written path payload) s q v spared h =
    write_evidence_once-keeps written path payload s q v h
apply_write-keeps (replacing true path payload) s q v spared h = rw spared h
apply_write-keeps (replacing false path payload) s q v spared h = h

-- Evidence that a run holds at a path is the same after any sequence of write_evidence_once_bytes at
-- any paths, that path included, and of write_evidence_bytes at other paths, with any payloads and
-- whether or not each write succeeds.
pub write_all-keeps :
    (ws : List Write) (s : Store) (q v : String)
    → Spares q ws
    → find_evidence q s.evidence ≡ some v
    → find_evidence q (write_all ws s).evidence ≡ some v
unfolding write_all
write_all-keeps [] s q v spared h = h
write_all-keeps (w ∷ ws) s q v (spared, others) h =
    write_all-keeps ws (apply_write w s) q v others (apply_write-keeps w s q v spared h)

-- The payload that a successful write leaves at its path.
write_once-holds :
    (written : Bool) (path payload : String) (held : Option String) (s : Store)
    → find_evidence path s.evidence ≡ held
    → (write_once written path payload held s).1 ≡ ok tt
    → find_evidence path (write_once written path payload held s).0.evidence ≡ some payload
unfolding write_once
write_once-holds written path payload (some old) s at done = ground (arith, eq_iff old payload)
write_once-holds true path payload none s at done =
    unfold find_evidence in ground (arith, eq_iff path path)
write_once-holds false path payload none s at done = cc

-- After a write_evidence_once_bytes that succeeds and any writes of evidence of which no
-- write_evidence_bytes is at its path, a write_evidence_once_bytes at the same path changes nothing,
-- whether or not the disk would accept it: it succeeds with the same payload and is refused with
-- another one.
pub write_evidence_once-settles :
    (written again : Bool) (path payload other : String) (ws : List Write) (s : Store)
    → (write_evidence_once written path payload s).1 ≡ ok tt
    → Spares path ws
    → let s' = write_all ws (write_evidence_once written path payload s).0 in
      (find_evidence path s'.evidence ≡ some payload)
      × (write_evidence_once again path other s'
          ≡ (if str_eq payload other then (s', ok tt) else (s', err evidence_differs)))
unfolding write_evidence_once
write_evidence_once-settles written again path payload other ws s done spared =
    let first = write_once-holds written path payload (find_evidence path s.evidence) s refl done in
    let held =
      write_all-keeps ws (write_once written path payload (find_evidence path s.evidence) s).0 path
        payload spared first in
    (held, rw (held, write_once) refl)

-- A write that fails at a path without evidence changes nothing.
pub write_evidence_once-fails :
    (path payload : String) (s : Store)
    → find_evidence path s.evidence ≡ none
    → write_evidence_once false path payload s ≡ (s, err evidence_write_failed)
unfolding write_evidence_once
write_evidence_once-fails path payload s absent =
    ap (λ held. write_once false path payload held s) absent ∙ unfold write_once in refl
