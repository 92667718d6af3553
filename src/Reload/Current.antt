-- ===== src/Reload/Current.antt =====
-- The rules in force are those of the file, once the task has come to rest.
use simple_forwarder.Prelude.{
  ◌≡◌, refl, sym, ap, ◌∙◌, Bool, true, false, Option, none, some, List, [], ◌∷◌, arith,
  if◌then◌else◌,
}
use simple_forwarder.Text.{Bytes}
use simple_forwarder.Outcome.{Outcome, done, failed}
use simple_forwarder.Crates.{Crates}
use simple_forwarder.Server.Target.{Rules}
use simple_forwarder.Config.Defs.{parse_rules}
use simple_forwarder.Config.Load.{Serde, Loaded, loaded, unreadable, malformed, from_file}
use simple_forwarder.Reload.Defs.{
  ReloadResult, in_time, timed_out, Phase, receiving, delaying, holding, Watched, Happening,
  file_changes, watcher_called, message_received, file_read, read_timed_out, result_applied,
  apply_result, receive, end_read, use_result, happen, happen_all,
}

-- The rules of a file that can be read, parsed and used.
abbrev pub rules_of : Crates → Loaded → Option Rules
rules_of c (loaded config) = elim (parse_rules c config.rules) [
  | done rs ↦ some rs
  | failed e ↦ none
]
rules_of c unreadable = none
rules_of c (malformed err) = none

-- No read runs into its timeout.
abbrev pub AreTimely : List Happening → Type 0
AreTimely [] = Unit {0}
AreTimely (read_timed_out ∷ hs) = ⊥
AreTimely (file_changes content ∷ hs) = AreTimely hs
AreTimely (watcher_called modified ∷ hs) = AreTimely hs
AreTimely (message_received ∷ hs) = AreTimely hs
AreTimely (file_read ∷ hs) = AreTimely hs
AreTimely (result_applied ∷ hs) = AreTimely hs

module _ (c : Crates) (serde : Serde) (path : Bytes) where
  abbrev pub wanted : Option Bytes → Option Rules
  wanted content = rules_of c (from_file serde path content)

  -- What the task knows of the file, by its phase.
  abbrev pub Settled : Phase → Watched → Type 0
  Settled receiving w = (rs : Rules) → wanted w.content ≡ some rs → w.rules ≡ rs
  Settled delaying w = Unit {0}
  Settled (holding (in_time l)) w = l ≡ from_file serde path w.content
  Settled (holding timed_out) w = ⊥

  -- If no change of the file waits to be noticed, the task knows the file.
  abbrev pub Fresh : Watched → Type 0
  Fresh w = w.unreported ≡ 0 → w.queued ≡ false → Settled w.phase w

  pub apply_result-rules :
      (l : Loaded) (w : Watched) (rs : Rules)
      → rules_of c l ≡ some rs
      → (apply_result c serde path (in_time l) w).rules ≡ rs
  unfolding apply_result
  apply_result-rules (loaded config) w rs e = go (parse_rules c config.rules) e
    where
      go :
          (o : Outcome Rules)
          → elim o as (λ o. Option Rules) [ done r ↦ some r | failed e ↦ none ] ≡ some rs
          → (elim o as (λ o. Watched) [
            | done r ↦ record w { phase = receiving; rules = r }
            | failed e ↦ record w { phase = receiving }
          ]).rules
            ≡ rs
      go (done r) e = cc
      go (failed x) e = absurd cc
  apply_result-rules unreadable w rs e = absurd cc
  apply_result-rules (malformed err) w rs e = absurd cc

  -- Nothing but the rules and the dialog changes, and the task receives again.
  pub record Applied (w w' : Watched) : Type 0 where
    pub same_content : w'.content ≡ w.content
    pub same_unreported : w'.unreported ≡ w.unreported
    pub same_queued : w'.queued ≡ w.queued
    pub receives : w'.phase ≡ receiving

  pub apply_result-Applied :
      (r : ReloadResult) (w : Watched) → Applied w (apply_result c serde path r w)
  unfolding apply_result
  apply_result-Applied (in_time (loaded config)) w = go (parse_rules c config.rules)
    where
      go :
          (o : Outcome Rules)
          → Applied w (elim o as (λ o. Watched) [
            | done r ↦ record w { phase = receiving; rules = r }
            | failed e ↦ record w { phase = receiving }
          ])
      go (done r) = ground arith
      go (failed x) = ground arith
  apply_result-Applied (in_time unreadable) w = ground arith
  apply_result-Applied (in_time (malformed err)) w = ground arith
  apply_result-Applied timed_out w = ground arith

  apply_result-Fresh :
      (r : ReloadResult) (w : Watched)
      → (w.unreported ≡ 0 → w.queued ≡ false → Settled (holding r) w)
      → Fresh (apply_result c serde path r w)
  apply_result-Fresh (in_time l) w f u q =
      let a = apply_result-Applied (in_time l) w in
      let known = f (sym a.same_unreported ∙ u) (sym a.same_queued ∙ q) in
      rw a.receives (λ rs want.
        apply_result-rules l w rs (ap (rules_of c) known ∙ ap wanted (sym a.same_content) ∙ want))
  apply_result-Fresh timed_out w f u q =
      let a = apply_result-Applied timed_out w in
      absurd (f (sym a.same_unreported ∙ u) (sym a.same_queued ∙ q))

  receive-Fresh : (p : Phase) (w : Watched) → Fresh w → Fresh (receive c serde path p w)
  unfolding receive
  receive-Fresh receiving w f = go w.queued f
    where
      go :
          (b : Bool)
          → Fresh w
          → Fresh (if b then record w { queued = false; phase = delaying } else w)
      go true f = λ u q. tt
      go false f = f
  receive-Fresh delaying w f = f
  receive-Fresh (holding r) w f = f

  end_read-Fresh :
      (p : Phase) (w : Watched)
      → Fresh w
      → Fresh (end_read c serde path p (in_time (from_file serde path w.content)) w)
  unfolding end_read
  end_read-Fresh receiving w f = f
  end_read-Fresh delaying w f = λ u q. refl
  end_read-Fresh (holding r) w f = f

  use_result-Fresh :
      (p : Phase) (w : Watched)
      → Fresh w
      → (w.unreported ≡ 0 → w.queued ≡ false → Settled p w)
      → Fresh (use_result c serde path p w)
  unfolding use_result
  use_result-Fresh receiving w f g = f
  use_result-Fresh delaying w f g = f
  use_result-Fresh (holding r) w f g = apply_result-Fresh r w g

  happen-Fresh :
      (h : Happening) (w : Watched) → AreTimely (h ∷ []) → Fresh w → Fresh (happen c serde path h w)
  unfolding happen
  happen-Fresh (file_changes content) w t f = λ u q. absurd (omega arith)
  happen-Fresh (watcher_called true) w t f = λ u q. absurd cc
  happen-Fresh (watcher_called false) w t f = f
  happen-Fresh message_received w t f = receive-Fresh w.phase w f
  happen-Fresh file_read w t f = end_read-Fresh w.phase w f
  happen-Fresh read_timed_out w t f = absurd t
  happen-Fresh result_applied w t f = use_result-Fresh w.phase w f f

  happen_all-Fresh :
      (hs : List Happening) (w : Watched)
      → AreTimely hs
      → Fresh w
      → Fresh (happen_all c serde path hs w)
  unfolding happen_all
  happen_all-Fresh [] w t f = f
  happen_all-Fresh (h ∷ hs) w t f =
      happen_all-Fresh hs (happen c serde path h w) (later h hs t)
        (happen-Fresh h w (first h hs t) f)
    where
      first : (h : Happening) (hs : List Happening) → AreTimely (h ∷ hs) → AreTimely (h ∷ [])
      first read_timed_out hs t = t
      first (file_changes content) hs t = tt
      first (watcher_called modified) hs t = tt
      first message_received hs t = tt
      first file_read hs t = tt
      first result_applied hs t = tt

      later : (h : Happening) (hs : List Happening) → AreTimely (h ∷ hs) → AreTimely hs
      later read_timed_out hs t = absurd t
      later (file_changes content) hs t = t
      later (watcher_called modified) hs t = t
      later message_received hs t = t
      later file_read hs t = t
      later result_applied hs t = t

  rules_current :
      (p : Phase) (w : Watched) (rs : Rules)
      → p ≡ receiving
      → Settled p w
      → wanted w.content ≡ some rs
      → w.rules ≡ rs
  rules_current receiving w rs e s want = s rs want
  rules_current delaying w rs e s want = absurd cc
  rules_current (holding r) w rs e s want = absurd cc

  -- However changes of the file, calls of the watcher and steps of the task follow one another, if no read
  -- runs into its timeout: whenever the task waits for a message, the channel is empty and every change
  -- has been reported, the rules in force are those of the file as it stands, if it has rules that
  -- can be used.
  pub happen_all-current :
      (hs : List Happening) (w : Watched) (rs : Rules)
      → AreTimely hs
      → Fresh w
      → (happen_all c serde path hs w).phase ≡ receiving
      → (happen_all c serde path hs w).unreported ≡ 0
      → (happen_all c serde path hs w).queued ≡ false
      → wanted (happen_all c serde path hs w).content ≡ some rs
      → (happen_all c serde path hs w).rules ≡ rs
  happen_all-current hs w rs t f p u q want =
      rules_current (happen_all c serde path hs w).phase (happen_all c serde path hs w) rs p
        (happen_all-Fresh hs w t f u q) want
