-- ===== src/Ipc/Answer.antt =====
-- An answer by harnessd/ipc.py as harnessd/detector.py reads it.
use long_horizon_agentic_har.Prelude.{
  String, str_eq, Bool, true, false, Option, none, some, [], ◌∷◌, ◌≡◌, refl, sym, ◌∙◌, ap, subst,
  Bool-cases, inl, inr,
}
use long_horizon_agentic_har.Result.{ok, ok-inj, >>=-eq-ok}
use long_horizon_agentic_har.Value.{Value, null, str, same}
use long_horizon_agentic_har.Dict
use long_horizon_agentic_har.Dict.{Dict, get-set_self}
use long_horizon_agentic_har.Validate.{or_null}
use long_horizon_agentic_har.Addressing.Paths.{signal_path}
use long_horizon_agentic_har.Ledger.Journal.{Journal}
use long_horizon_agentic_har.Executor.{Binding, World, TransitionResult}
use long_horizon_agentic_har.Executor.OwnSlice.{post_answer}
use long_horizon_agentic_har.Executor.OwnSlice.Slice.{Sliced, own_slice_write-Sliced}
use long_horizon_agentic_har.Runtime.{
  Artifact, unreadable, not_json, not_object, payload, Site, Tree, on_world,
}
use long_horizon_agentic_har.Detector.{signal_of, ts_of, is_waiting}
use long_horizon_agentic_har.Detector.Signals.{
  ts_is_newer, escalation_answered, read_artifact, read_terminal_signal,
}
use long_horizon_agentic_har.Chokepoint.Collapse.Outcome.{on_world-ok}
use long_horizon_agentic_har.Ipc.{
  Response, transition_response, is_escalated, posted, answer_escalated, answer_found,
  handle_answer,
}

-- An answered escalation is no reason to wait.
is_waiting-answered :
    (site : Site) (b : Binding) (sig : Option (Dict Value))
    → escalation_answered site b (ts_of sig) ≡ true
    → is_waiting site b sig ≡ false
unfolding is_waiting
is_waiting-answered site b sig h = elim (Bool-cases (same (signal_of sig) (str "ESCALATED"))) [
  | inl q ↦ rw (q, h) refl
  | inr q ↦ elim (Bool-cases (same (or_null (Dict.get "terminal_signal" b)) (str "ESCALATED"))) [
    | inl r ↦ rw (q, r, h) refl
    | inr r ↦ rw (q, r) refl
  ]
]

answered_at-escalation_answered :
    (site : Site) (b : Binding) (now : String) (ts : Value)
    → Dict.get "answered_at" b ≡ some (str now)
    → str_eq now "" ≡ false
    → ts_is_newer site (or_null (Dict.get "terminal_signal_at" b)) (str now) ≡ false
    → ts_is_newer site ts (str now) ≡ false
    → escalation_answered site b ts ≡ true
unfolding escalation_answered ts_is_newer
answered_at-escalation_answered site b now ts h named stamp file =
    rw h (rw (stamp, file) (rw named refl))

module _ (j : Journal) where
  -- A signal that escalates has been read without a write.
  read_artifact-kept :
      (a : String) (b : Binding) (o : Option Artifact) (t : Tree j)
      → same (signal_of (read_artifact a b o t).0) (str "ESCALATED") ≡ true
      → (read_artifact a b o t).1 ≡ t
  read_artifact-kept a b none t h = refl
  read_artifact-kept a b (some unreadable) t h = absurd (cc h)
  read_artifact-kept a b (some not_json) t h = absurd (cc h)
  read_artifact-kept a b (some not_object) t h = absurd (cc h)
  read_artifact-kept a b (some (payload fields)) t h = refl

  is_escalated-kept :
      (a : String) (b : Binding) (t : Tree j)
      → (is_escalated j a b t).0 ≡ true
      → (is_escalated j a b t).1 ≡ t
  unfolding read_terminal_signal
  is_escalated-kept a b t h =
      elim (Bool-cases (same (or_null (Dict.get "terminal_signal" b)) (str "ESCALATED"))) [
        | inl q ↦ rw q refl
        | inr q ↦ rw q (read_artifact-kept a b (Dict.get (signal_path a) t.signals) t (rw q at h))
      ]

  post_answer-Sliced :
      (a content : String) (token : Value) (w w' : World j) (res : TransitionResult)
      → post_answer j a content token w ≡ ok (res, w')
      → res.committed ≡ true
      → Sliced j a token (("terminal_note", str content) ∷ ("answered_at", str w.now) ∷ []) w w'
  unfolding post_answer
  post_answer-Sliced a content token w w' res h c =
      own_slice_write-Sliced j a token _ _ _ w w' res h c

  -- What an accepted answer leaves at the node: the note is the answer, and the escalation stays.
  pub record Answered (a content : String) (live : Binding) (t t' : Tree j) : Type 0 where
    pub stored : Binding
    pub found : Dict.get a t'.world.bindings ≡ some stored
    pub note : Dict.get "terminal_note" stored ≡ some (str content)
    pub at : Dict.get "answered_at" stored ≡ some (str t.world.now)
    pub signal : Dict.get "terminal_signal" stored ≡ Dict.get "terminal_signal" live
    pub state : Dict.get "state" stored ≡ Dict.get "state" live
    pub stamp : Dict.get "terminal_signal_at" stored ≡ Dict.get "terminal_signal_at" live

  posted-Answered :
      (a content : String) (live : Binding) (t : Tree j) (res : TransitionResult) (t1 : Tree j)
      (r : Response) (t' : Tree j)
      → Dict.get a t.world.bindings ≡ some live
      → on_world (post_answer j a content null) t ≡ ok (res, t1)
      → posted j a live (res, t1) ≡ (r, t')
      → r.accepted ≡ true
      → Answered a content live t t'
  unfolding transition_response Dict.get
  posted-Answered a content live t res t1 r t' found e p accepted =
      elim (Bool-cases res.committed) [
        | inr q ↦
            let no : false ≡ r.accepted =
              ap (λ (x : Response × Tree j). x.0.accepted) (rw q at p) in
            absurd (cc (no, accepted))
        | inl q ↦
            let (w, ew, et) = on_world-ok (post_answer j a content null) t res t1 e in
            let s = post_answer-Sliced a content null t.world w res ew q in
            let same_live : some s.live ≡ some live = sym s.found ∙ found in
            let it : s.live ≡ live = cc in
            record {
              stored = s.stored;
              found =
                  ap (λ (x : Response × Tree j). Dict.get a x.1.world.bindings) (sym p)
                  ∙ (kept q
                      ∙ (ap (λ (x : Tree j). Dict.get a x.world.bindings) et
                          ∙ (ap (Dict.get a) s.bindings
                              ∙ get-set_self a s.stored t.world.bindings)));
              note = s.content "terminal_note";
              at = s.content "answered_at";
              signal = s.content "terminal_signal" ∙ ap (Dict.get "terminal_signal") it;
              state = s.content "state" ∙ ap (Dict.get "state") it;
              stamp = s.content "terminal_signal_at" ∙ ap (Dict.get "terminal_signal_at") it;
            }
      ]
    where
      kept :
          res.committed ≡ true
          → Dict.get a (posted j a live (res, t1)).1.world.bindings ≡ Dict.get a t1.world.bindings
      kept q = rw q refl

  answer_escalated-Answered :
      (a content : String) (live : Binding) (escalated : Bool) (t t0 : Tree j) (r : Response)
      (t' : Tree j)
      → Dict.get a t.world.bindings ≡ some live
      → (escalated ≡ true → t0 ≡ t)
      → answer_escalated j a content live (escalated, t0) ≡ ok (r, t')
      → r.accepted ≡ true
      → Answered a content live t t'
  answer_escalated-Answered a content live false t t0 r t' found kept h accepted =
      let no : false ≡ r.accepted = ap (λ (x : Response × Tree j). x.0.accepted) (ok-inj _ _ h) in
      absurd (cc (no, accepted))
  answer_escalated-Answered a content live true t t0 r t' found kept h accepted =
      let ((res, t1), e, k) =
        >>=-eq-ok (on_world (post_answer j a content null) t0) (λ x. ok (posted j a live x)) h in
      posted-Answered a content live t res t1 r t' found
        (subst (λ x. on_world (post_answer j a content null) x ≡ ok (res, t1)) (kept refl) e)
        (ok-inj _ _ k) accepted

  handle_answer-Answered :
      (a content : String) (live : Binding) (t : Tree j) (r : Response) (t' : Tree j)
      → handle_answer j a content t ≡ ok (r, t')
      → r.accepted ≡ true
      → Dict.get a t.world.bindings ≡ some live
      → Answered a content live t t'
  unfolding handle_answer
  handle_answer-Answered a content live t r t' h accepted found =
      elim (Bool-cases (str_eq content "")) [
        | inl q ↦
            let no : false ≡ r.accepted =
              ap (λ (x : Response × Tree j). x.0.accepted) (ok-inj _ _ (rw q at h)) in
            absurd (cc (no, accepted))
        | inr q ↦
            answer_escalated-Answered a content live (is_escalated j a live t).0 t
              (is_escalated j a live t).1 r t' found (is_escalated-kept a live t)
              (subst (λ o. answer_found j a content o t ≡ ok (r, t')) found (rw q at h)) accepted
      ]

  -- An accepted answer is stored as the note with its instant, and the state, the terminal signal and
  -- its instant stay as they are. It ends the escalation as a reason to wait: unless the signal file
  -- or the stamp of the escalation is later than the clock at the answer, or the clock shows nothing,
  -- the detector no longer calls the node waiting.
  pub handle_answer-is_waiting :
      (site : Site) (a content : String) (live : Binding) (sig : Option (Dict Value)) (t : Tree j)
      (r : Response) (t' : Tree j)
      → handle_answer j a content t ≡ ok (r, t')
      → r.accepted ≡ true
      → Dict.get a t.world.bindings ≡ some live
      → str_eq t.world.now "" ≡ false
      → ts_is_newer site (or_null (Dict.get "terminal_signal_at" live)) (str t.world.now) ≡ false
      → ts_is_newer site (ts_of sig) (str t.world.now) ≡ false
      → Answered a content live t t'
        × ((b : Binding) → Dict.get a t'.world.bindings ≡ some b → is_waiting site b sig ≡ false)
  handle_answer-is_waiting site a content live sig t r t' h accepted found named stamp file =
      let done = handle_answer-Answered a content live t r t' h accepted found in
      let ended : is_waiting site done.stored sig ≡ false =
        is_waiting-answered site done.stored sig (
          answered_at-escalation_answered site done.stored t.world.now (ts_of sig) done.at named
            (subst (λ o. ts_is_newer site (or_null o) (str t.world.now) ≡ false) (sym done.stamp)
              stamp)
            file) in
      (
        done,
        λ b q. subst (λ x. is_waiting site x sig ≡ false) (some_inj (sym done.found ∙ q)) ended,
      )
    where
      some_inj : {x y : Binding} → some x ≡ some y → x ≡ y
      some_inj e = cc
