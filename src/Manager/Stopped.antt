-- ===== src/Manager/Stopped.antt =====
-- How the manager ends: the servers that were started are killed, or left behind.
use honeypots.Prelude.{
  ℕ, ◌+◌, ◌≡◌, ◌⊎◌, inl, inr, refl, sym, ap, ◌∙◌, not, ◌&&◌, Bool, List, [], ◌∷◌, ◌++◌, map,
  append-nil, append_assoc, length, arith, Bool-cases,
}
use honeypots.Python.Bytes.{Text, codes, bytes_eq}
use honeypots.Python.Result.{ok}
use honeypots.Manager.{Options, State, World, Honeypot, Event, Ending, done, exited, killed, waited}
use honeypots.Manager.Setup.{
  good, bad, is_empty, wait_for_end, await_termination, kill_one, kill_each, stop_servers,
  wait_and_stop, start_asked, set_up_honeypots,
}
use honeypots.Manager.Main.{ConfigFile, missing, not_json, load_config, main_logic}

-- The two lists of the manager hold every honeypot once.
pub good_bad-length : (hs : List Honeypot) → length (good hs) + length (bad hs) ≡ length hs
unfolding good bad
good_bad-length [] = refl
good_bad-length (h ∷ hs) = ground (arith, good_bad-length hs)

abbrev kill_event : Honeypot → Event
kill_event h = killed h.name

module _ (w : World) (o : Options) where
  after_kills : List Honeypot → State → State
  after_kills hs s = record s { events = s.events ++ map kill_event hs }

  kill_one_lem : (h : Honeypot) (s : State) → kill_one w o h s ≡ (done tt, after_kills (h ∷ []) s)
  unfolding kill_one after_kills
  kill_one_lem h s = elim (Bool-cases (w.kill_raises h.name)) [
    | inl e ↦ rw (e, kill_one) refl
    | inr e ↦ rw (e, kill_one) refl
  ]

  kill_each_lem :
      (hs : List Honeypot) (s : State) → kill_each w o hs s ≡ (done tt, after_kills hs s)
  unfolding kill_each after_kills
  kill_each_lem [] s = rw (append-nil s.events) refl
  kill_each_lem (h ∷ hs) s = rw (kill_one_lem h s) (
      rw (kill_each_lem hs (after_kills (h ∷ []) s))
        (rw (append_assoc s.events (kill_event h ∷ []) (map kill_event hs)) refl))

  await_done :
      (s : State)
      → (o.termination_strategy ≡ codes "input") ⊎ (o.termination_strategy ≡ codes "signal")
      → w.waits o.termination_strategy ≡ ok tt
      → await_termination w o.termination_strategy s
        ≡ (done tt, record s { events = s.events ++ waited o.termination_strategy ∷ [] })
  unfolding await_termination bytes_eq
  await_done s (inl h) e = rw h (rw (ap w.waits (sym h) ∙ e) refl)
  await_done s (inr h) e = rw h (rw (ap w.waits (sym h) ∙ e) refl)

  -- done, with nothing changed but the events
  abbrev OnlyEvents : State → Ending (Unit {0}) × State → Type 0
  OnlyEvents s r = (es : List Event) × (r ≡ (done tt, record s { events = es }))

  wait_for_end_done :
      (hs : List Honeypot) (s : State)
      → (o.termination_strategy ≡ codes "input") ⊎ (o.termination_strategy ≡ codes "signal")
      → w.waits o.termination_strategy ≡ ok tt
      → OnlyEvents s (wait_for_end w o hs s)
  unfolding wait_for_end
  wait_for_end_done hs s t e' = elim (Bool-cases (not (is_empty (good hs)) && not o.test)) [
    | inl e ↦
        (s.events ++ waited o.termination_strategy ∷ [], rw (e, wait_for_end) (await_done s t e'))
    | inr e ↦ (s.events, rw (e, wait_for_end) refl)
  ]

  -- done, with the kills of some honeypots as the last events
  abbrev pub EndsWithKills : List Honeypot → Ending (Unit {0}) × State → Type 0
  EndsWithKills hs r =
      (before : List Event) × ((u : State) × ((r ≡ (done tt, u))
          × (u.events ≡ before ++ map kill_event hs)))

  stop_lem : (s : State) → stop_servers w o s ≡ (done tt, after_kills s.honeypots s)
  unfolding stop_servers
  stop_lem s = kill_each_lem s.honeypots s

  wait_and_stop_ends :
      (hs : List Honeypot) (s : State)
      → (o.termination_strategy ≡ codes "input") ⊎ (o.termination_strategy ≡ codes "signal")
      → w.waits o.termination_strategy ≡ ok tt
      → s.honeypots ≡ hs
      → EndsWithKills hs (wait_and_stop w o hs s)
  unfolding wait_and_stop after_kills
  wait_and_stop_ends [] s t e' e = (s.events, (s, (refl, sym (append-nil s.events))))
  wait_and_stop_ends (h ∷ hs) s t e' e =
      let (es, p) = wait_for_end_done (h ∷ hs) s t e' in
      (
        es,
        (
          after_kills s.honeypots (record s { events = es }),
          (rw p (stop_lem (record s { events = es })), rw e refl),
        ),
      )

  -- A run of the manager that started its servers, and whose wait for the end raises nothing, ends with
  -- the kill of each of them, in the order of their start: also of those that do not run, and
  -- whatever a kill raises. The termination strategy is one of the two that there are.
  pub set_up_honeypots_kills :
      (auto : Bool) (s t : State)
      → (o.termination_strategy ≡ codes "input") ⊎ (o.termination_strategy ≡ codes "signal")
      → w.waits o.termination_strategy ≡ ok tt
      → start_asked w o auto s ≡ (done tt, t)
      → EndsWithKills t.honeypots (set_up_honeypots w o auto s)
  unfolding set_up_honeypots
  set_up_honeypots_kills auto s t c e' e = rw e (wait_and_stop_ends t.honeypots t c e' refl)

  -- A configuration that cannot be read or parsed leaves the program with 1, before anything is done.
  pub main_logic_no_config :
      (euid x : ℕ) (name : Text) (file : ConfigFile) (s : State)
      → o.config ≡ x ∷ name
      → (file ≡ missing) ⊎ (file ≡ not_json)
      → main_logic w o file euid s ≡ (exited 1, s)
  unfolding main_logic load_config
  main_logic_no_config euid x name file s e (inl f) = rw (e, f) refl
  main_logic_no_config euid x name file s e (inr f) = rw (e, f) refl
