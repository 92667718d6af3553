-- ===== src/Tray/Activity.antt =====
-- The task of `TrayManager::new` that watches for traffic, `post_icon_update`, and the icon that the
-- message loop shows (`handle_icon_update`).
use simple_forwarder.Prelude.{
  ℕ, ◌≡◌, ◌≢◌, refl, sym, ◌∙◌, Bool, true, false, not, ◌&&◌, List, [], ◌∷◌, ◌++◌, arith, ◌==◌,
  if◌then◌else◌,
}

pub record Watch : Type 0 where
  -- `stats.traffic_active`, which the accept loop and the relays set
  pub traffic_active : Bool
  pub currently_active : Bool
  pub is_active : Bool
  -- 0 until the message loop runs
  pub thread_id : ℕ
  -- the messages WM_USER + 1 that wait in the queue of the message loop, the oldest first
  pub posted : List Bool
  -- the icon that is shown: the active one, or the inactive one
  pub icon : Bool

unfoldable pub new_watch : Watch
new_watch = record {
  traffic_active = false;
  currently_active = false;
  is_active = false;
  thread_id = 0;
  posted = [];
  icon = false;
}

-- Whether `PostThreadMessageW` succeeds is the first argument; if it fails the error is logged.
unfoldable pub post_icon_update : Bool → Bool → Watch → Watch
post_icon_update posts active w =
    if w.thread_id == 0
    then w
    else if posts
    then record w { posted = w.posted ++ active ∷ [] }
    else w

-- One round of the task, every ACTIVITY_CHECK_INTERVAL_MS: `swap(false)` on the flag, and a message on a
-- change.
unfoldable pub check_activity : Bool → Watch → Watch
unfolding post_icon_update
check_activity posts w =
    let active = w.traffic_active in
    let seen = record w { traffic_active = false } in
    if active
    then (if seen.currently_active
        then seen
        else post_icon_update posts true
            (record seen { currently_active = true; is_active = true }))
    else if seen.currently_active
    then post_icon_update posts false (record seen { currently_active = false; is_active = false })
    else seen

-- `handle_icon_update` on the oldest message. Whether `set_icon` succeeds is the first argument; if it fails
-- the error is logged.
unfoldable pub handle_icon_update : Bool → Watch → Watch
handle_icon_update sets w = elim w.posted [
  | [] ↦ w
  | active ∷ later ↦ record w { icon = if sets then active else w.icon; posted = later }
]

-- What happens to the icon: traffic; a round of the task, with whether a message can be posted; a message
-- that is handled, with whether the icon can be set; and the start of the message loop with the id of its
-- thread.
pub data Moment : Type 0 where
  traffic : Moment
  checked handled : Bool → Moment
  loop_starts : ℕ → Moment

unfoldable pub watch : Moment → Watch → Watch
unfolding check_activity handle_icon_update
watch traffic w = record w { traffic_active = true }
watch (checked posts) w = check_activity posts w
watch (handled sets) w = handle_icon_update sets w
watch (loop_starts tid) w = record w { thread_id = tid }

unfoldable pub watch_all : List Moment → Watch → Watch
unfolding watch
watch_all [] w = w
watch_all (m ∷ ms) w = watch_all ms (watch m w)

-- Whether there was traffic since the last round, and whether there was before it, in the interval that
-- the last round looked at. The first two arguments are these at the start.
unfoldable pub busy : Bool → List Moment → Bool
busy now [] = now
busy now (traffic ∷ ms) = busy true ms
busy now (checked posts ∷ ms) = busy false ms
busy now (handled sets ∷ ms) = busy now ms
busy now (loop_starts tid ∷ ms) = busy now ms

unfoldable pub busy_before : Bool → Bool → List Moment → Bool
busy_before now last [] = last
busy_before now last (traffic ∷ ms) = busy_before true last ms
busy_before now last (checked posts ∷ ms) = busy_before false now ms
busy_before now last (handled sets ∷ ms) = busy_before now last ms
busy_before now last (loop_starts tid ∷ ms) = busy_before now last ms

-- The messages turn the icon back and forth, from the one that is shown to the last.
abbrev Turns : Bool → List Bool → Bool → Type 0
Turns icon [] last = icon ≡ last
Turns icon (b ∷ bs) last = (b ≡ not icon) × Turns b bs last

Turns-snoc :
    (icon : Bool) (bs : List Bool) (last : Bool)
    → Turns icon bs last
    → Turns icon (bs ++ not last ∷ []) (not last)
Turns-snoc icon [] last h = ground arith
Turns-snoc icon (b ∷ bs) last h = (h.0, Turns-snoc b bs last h.1)

-- Whether all went well so far, and every message could be posted and the icon set since.
unfoldable pub all_well : Bool → List Moment → Bool
all_well well [] = well
all_well well (traffic ∷ ms) = all_well well ms
all_well well (checked posts ∷ ms) = all_well (well && posts) ms
all_well well (handled sets ∷ ms) = all_well (well && sets) ms
all_well well (loop_starts tid ∷ ms) = all_well well ms

-- What holds while the message loop runs.
pub record Follows (now last well : Bool) (w : Watch) : Type 0 where
  pub flag : w.traffic_active ≡ now
  pub known : w.currently_active ≡ last
  pub shared : w.is_active ≡ last
  pub turning : well ≡ true → Turns w.icon w.posted last

abbrev IsChat : List Moment → Type 0
IsChat [] = Unit {0}
IsChat (traffic ∷ ms) = IsChat ms
IsChat (checked posts ∷ ms) = IsChat ms
IsChat (handled sets ∷ ms) = IsChat ms
IsChat (loop_starts tid ∷ ms) = ⊥

and-left : (a b : Bool) → (a && b) ≡ true → a ≡ true
and-left a b h = ground arith

check-Follows :
    (now last well posts : Bool) (w : Watch)
    → w.thread_id ≢ 0
    → Follows now last well w
    → Follows false now (well && posts) (check_activity posts w)
unfolding check_activity post_icon_update
check-Follows true true well posts w t f =
    let turning : (well && posts) ≡ true → Turns w.icon w.posted true =
      λ h. f.turning (and-left well posts h) in
    ground (arith, turning)
check-Follows true false well true w t f =
    let turning : (well && true) ≡ true → Turns w.icon (w.posted ++ true ∷ []) true =
      λ h. Turns-snoc w.icon w.posted false (f.turning (and-left well true h)) in
    ground (arith, turning)
check-Follows true false well false w t f = ground arith
check-Follows false true well true w t f =
    let turning : (well && true) ≡ true → Turns w.icon (w.posted ++ false ∷ []) false =
      λ h. Turns-snoc w.icon w.posted true (f.turning (and-left well true h)) in
    ground (arith, turning)
check-Follows false true well false w t f = ground arith
check-Follows false false well posts w t f =
    let turning : (well && posts) ≡ true → Turns w.icon w.posted false =
      λ h. f.turning (and-left well posts h) in
    ground (arith, turning)

handle-Follows :
    (now last well sets : Bool) (w : Watch)
    → Follows now last well w
    → Follows now last (well && sets) (handle_icon_update sets w)
unfolding handle_icon_update
handle-Follows now last well sets w f = go w.posted refl sets f.turning
  where
    go :
        (p : List Bool)
        → w.posted ≡ p
        → (sets : Bool) → (well ≡ true → Turns w.icon p last)
        → Follows now last (well && sets) (handle_icon_update sets w)
    go [] e sets t =
        rw (e, handle_icon_update)
          (record {
            flag = f.flag;
            known = f.known;
            shared = f.shared;
            turning = λ h. rw e (t (and-left well sets h));
          })
    go (b ∷ bs) e true t =
        rw (e, handle_icon_update)
          (record {
            flag = f.flag;
            known = f.known;
            shared = f.shared;
            turning = λ h. (t (and-left well true h)).1;
          })
    go (b ∷ bs) e false t =
        rw (e, handle_icon_update)
          (record {
            flag = f.flag;
            known = f.known;
            shared = f.shared;
            turning = λ h. absurd (ground arith);
          })

check_activity-thread_id :
    (posts : Bool) (w : Watch) → (check_activity posts w).thread_id ≡ w.thread_id
unfolding check_activity post_icon_update
check_activity-thread_id posts w = ground arith

handle_icon_update-thread_id :
    (sets : Bool) (w : Watch) → (handle_icon_update sets w).thread_id ≡ w.thread_id
unfolding handle_icon_update
handle_icon_update-thread_id sets w = ground arith

watch_all-Follows :
    (now last well : Bool) (ms : List Moment) (w : Watch)
    → w.thread_id ≢ 0
    → IsChat ms
    → Follows now last well w
    → Follows (busy now ms) (busy_before now last ms) (all_well well ms) (watch_all ms w)
unfolding watch_all busy busy_before all_well
watch_all-Follows now last well [] w t c f = f
watch_all-Follows now last well (traffic ∷ ms) w t c f =
    watch_all-Follows true last well ms (record w { traffic_active = true }) t c
      (record { flag = refl; known = f.known; shared = f.shared; turning = f.turning })
watch_all-Follows now last well (checked posts ∷ ms) w t c f =
    watch_all-Follows false now (well && posts) ms (check_activity posts w)
      (λ e. t (sym (check_activity-thread_id posts w) ∙ e)) c
      (check-Follows now last well posts w t f)
watch_all-Follows now last well (handled sets ∷ ms) w t c f =
    watch_all-Follows now last (well && sets) ms (handle_icon_update sets w)
      (λ e. t (sym (handle_icon_update-thread_id sets w) ∙ e)) c
      (handle-Follows now last well sets w f)
watch_all-Follows now last well (loop_starts tid ∷ ms) w t c f = absurd c

-- Once the message loop runs, whatever the order of traffic, rounds and messages: the flag says whether
-- there was traffic since the last round, and the program counts as active exactly if the interval before
-- that round had traffic. If no message failed to be posted and the icon could always be set, the icon
-- shows just that once the messages in the queue are handled; every message turns it, none repeats
-- the one before.
pub watch_all-new_watch :
    (tid : ℕ) (ms : List Moment)
    → tid ≢ 0
    → IsChat ms
    → Follows
        (busy false ms)
        (busy_before false false ms)
        (all_well true ms)
        (watch_all (loop_starts tid ∷ ms) new_watch)
unfolding watch_all new_watch
watch_all-new_watch tid ms t c =
    watch_all-Follows false false true ms (record new_watch { thread_id = tid }) t c
      (record { flag = refl; known = refl; shared = refl; turning = λ h. refl })
