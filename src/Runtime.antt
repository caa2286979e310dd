-- ===== src/Runtime.antt =====
-- What the daemon's modules around the single writer read and write besides its ledgers: the
-- agents' files below the runtime root, and the world outside as one step sees it.
use long_horizon_agentic_har.Prelude.{
  ℕ, ◌+◌, ◌*◌, String, Bool, false, ltb, Option, none, some, List, [], ◌∷◌, ◌++◌,
}
use long_horizon_agentic_har.Result.{Result, ok, err, value_error, type_error, ◌>>=◌}
use long_horizon_agentic_har.Value.{Value, str}
use long_horizon_agentic_har.Dict
use long_horizon_agentic_har.Dict.{Dict}
use long_horizon_agentic_har.Ledger.Journal.{Journal}
use long_horizon_agentic_har.Executor.{World}
use long_horizon_agentic_har.Reconcile.Sweep.{Target}

-- What the reader of a signal file meets: the agent writes it, so its bytes can be anything.
pub data Artifact : Type 0 where
  unreadable not_json not_object : Artifact
  payload : Dict Value → Artifact

-- A line that the daemon appends to an inbox, by its type and message.
pub record Message : Type 0 where
  pub type : String
  pub message : String

-- tmux takes the keys, or exits non-zero, or raises with this text.
pub data Sent : Type 0 where
  delivered exited : Sent
  raised : String → Sent

-- What the regular expressions of the return contract find: the requirement IDs, the bodies of the
-- trace stanzas, and the text before, in and behind a list of served IDs.
pub record Patterns : Type 0 where
  pub id_tokens : String → List String
  pub stanzas : String → List String
  pub serves_list : String → Option (String × String × String)

-- What the step reads from outside: the clock's parser of ISO-8601 instants, as microseconds; the
-- live panes and their text (none if tmux fails); the size of a transcript (none if absent); and the
-- notes of a signal's evidence, at most 200 characters of them (none if it is no object); the bytes
-- of an inbox line; what becomes of the keys that are sent to a pane; the Markdown files of a node's directory,
-- in the order of their names (none if there is no such directory); and the patterns.
pub record Site : Type 0 where
  pub instant : String → Option ℕ
  pub targets : Dict Target
  pub capture : String → Option String
  pub transcript : String → Option ℕ
  pub notes : Value → Option String
  pub line_size : Message → ℕ
  pub send : String → String → Sent
  pub workspace : String → Option (Dict String)
  pub patterns : Patterns

-- path.stat().st_size of an inbox; none if there is no file.
unfoldable pub lines_size : Site → List Message → ℕ
lines_size site [] = 0
lines_size site (line ∷ lines) = site.line_size line + lines_size site lines

-- What the step has tmux do. An actor is opened with the session that it resumes, if any.
pub data Command : Type 0 where
  kill_session : String → Command
  open_actor : String → Option Value → Command
  send_keys : String → String → Command

-- The ledgers, the signal files, the sign-off files with their tokens, the inboxes, the sizes
-- that `jsonl_progress` remembers, and the commands so far, the last one first.
pub record Tree (j : Journal) : Type 0 where
  pub world : World j
  pub signals : Dict Artifact
  pub signoffs : Dict Value
  pub inboxes : Dict (List Message)
  pub sizes : Dict ℕ
  pub commands : List Command

abbrev after : Option ℕ → Option ℕ → Bool
after (some a) (some b) = ltb b a
after _ _ = false

abbrev pub is_later : Site → Value → Value → Bool
is_later site (str a) (str b) = after (site.instant a) (site.instant b)
is_later site _ _ = false

abbrev pub age_of : Option ℕ → Option ℕ → ℕ → Result Bool
age_of (some then_) (some now) seconds = ok (ltb (then_ + seconds * 1000000) now)
age_of _ _ seconds = err value_error

-- clock.age_seconds(then, now=now) > seconds
abbrev pub is_older : Site → Value → String → ℕ → Result Bool
is_older site (str then_) now seconds = age_of (site.instant then_) (site.instant now) seconds
is_older site _ now seconds = err type_error

abbrev pub lines_of : Option (List Message) → List Message
lines_of none = []
lines_of (some lines) = lines

module _ {j : Journal} where
  abbrev pub set_world : World j → Tree j → Tree j
  set_world w t = record t { world = w }

  -- A call of the single writer.
  abbrev pub on_world {ℓ} :
      {A : Type ℓ} → (World j → Result (A × World j)) → Tree j → Result (A × Tree j)
  on_world step t = do (a, w) ← step t.world; ok (a, set_world w t)

  -- A write whose exceptions are swallowed. Nothing has been written where one is raised.
  abbrev best_effort : World j → Result (World j) → World j
  best_effort w (ok w') = w'
  best_effort w (err e) = w

  abbrev pub attempt : (World j → Result (World j)) → Tree j → Tree j
  attempt step t = set_world (best_effort t.world (step t.world)) t

  -- One line at the end of an inbox.
  abbrev pub append_line : String → Message → Tree j → Tree j
  append_line path line t = record t {
    inboxes = Dict.set path (lines_of (Dict.get path t.inboxes) ++ (line ∷ [])) t.inboxes;
  }

  abbrev pub command : Command → Tree j → Tree j
  command c t = record t { commands = c ∷ t.commands }
