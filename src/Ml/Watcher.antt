-- ===== src/Ml/Watcher.antt =====
-- The watcher of ml.rs: the task of `start_watcher` that reads the events of the file system and swaps
-- the snapshot. An event comes with the millisecond at which it reaches the channel; how long a build
-- takes is an argument, and a build reads the file when it begins.
use Prim.Native.String.{String}
use text.Mathlib.Text.{◌==◌ as ◌≟◌}
use rust_rtb_bidder.Base.{
  ℕ, ◌+◌, ◌<◌, ◌≤◌, max, ◌≡◌, refl, ◌∙◌, arith, Bool, true, false, not, none, some, List, [], ◌∷◌,
  ◌++◌, any, ltb, if◌then◌else◌, unwrap_or, if_intro,
}
use rust_rtb_bidder.Ml.{MlScorerConfig, ModelSnapshot, MlRuntime, build}

-- `notify::EventKind`.
pub data EventKind : Type 0 where
  any_kind access create modify remove other_kind : EventKind

pub record Event : Type 0 where
  pub paths : List String
  pub kind : EventKind

-- `matches!(ev.kind, EventKind::Modify(_) | EventKind::Create(_))`.
unfoldable pub is_interesting : EventKind → Bool
is_interesting modify = true
is_interesting create = true
is_interesting _ = false

unfoldable pub touches_model : String → Event → Bool
touches_model path ev = any (λ p. p ≟ path) ev.paths

-- The swapped pointer, the first millisecond whose events were not drained, and the end of the last
-- build.
pub record Watch (S : Type 0) : Type 0 where
  pub snapshot : ModelSnapshot S
  pub next_from : ℕ
  pub free_at : ℕ

abbrev pub debounce : ℕ
debounce = 200

module _ {F S : Type 0} (rt : MlRuntime F S) (cfg : MlScorerConfig) (build_ms : ℕ → ℕ) where
  -- What follows the debounce, which ends at this time: the channel is drained, and the model is built.
  unfoldable pub reload : Watch S → ℕ → Watch S
  reload w now = record {
    snapshot = unwrap_or (build rt cfg now) w.snapshot;
    next_from = now + 1;
    free_at = now + build_ms now;
  }

  -- One event: it may have been drained with an earlier one.
  unfoldable pub receive : Watch S → ℕ × Event → Watch S
  receive w (t, ev) =
      if ltb t w.next_from
      then w
      else if not (touches_model cfg.model_path ev)
      then w
      else if not (is_interesting ev.kind)
      then w
      else reload w (max t w.free_at + debounce)

  unfoldable pub watch : Watch S → List (ℕ × Event) → Watch S
  watch w [] = w
  watch w (e ∷ es) = watch (receive w e) es

  module _ (t : ℕ) (m : ModelSnapshot S)
      (built : (now : ℕ) → t ≤ now → build rt cfg now ≡ some m) where
    -- Once what arrived by t is drained, the model is the one that the file has had since.
    abbrev IsCurrent : Watch S → Type 0
    IsCurrent w = t < w.next_from → w.snapshot ≡ m

    reload-IsCurrent : (w : Watch S) (now : ℕ) → IsCurrent (reload w now)
    unfolding reload
    reload-IsCurrent w now h = ground (arith, built now)

    receive-IsCurrent : (w : Watch S) (e : ℕ × Event) → IsCurrent w → IsCurrent (receive w e)
    unfolding receive
    receive-IsCurrent w (u, ev) c =
        if_intro IsCurrent (ltb u w.next_from) _ _ (λ _. c)
          (λ _.
            if_intro IsCurrent (not (touches_model cfg.model_path ev)) _ _ (λ _. c)
              (λ _.
                if_intro IsCurrent (not (is_interesting ev.kind)) _ _ (λ _. c)
                  (λ _. reload-IsCurrent w _)))

    receive-grows : (w : Watch S) (e : ℕ × Event) → w.next_from ≤ (receive w e).next_from
    unfolding receive reload
    receive-grows w (u, ev) = ground arith

    watch-current :
        (w : Watch S) (es : List (ℕ × Event))
        → t < w.next_from
        → w.snapshot ≡ m
        → (watch w es).snapshot ≡ m
    unfolding watch
    watch-current w [] h c = c
    watch-current w (e ∷ es) h c =
        let g : t < (receive w e).next_from = omega (arith, h, receive-grows w e) in
        watch-current (receive w e) es g (receive-IsCurrent w e (λ _. c) g)

    receive-drains :
        (w : Watch S) (ev : Event)
        → touches_model cfg.model_path ev ≡ true
        → is_interesting ev.kind ≡ true
        → t < (receive w (t, ev)).next_from
    unfolding receive reload
    receive-drains w ev h k = ground (arith, h, k)

    watch-reloaded :
        (w : Watch S) (before after : List (ℕ × Event)) (ev : Event)
        → IsCurrent w
        → touches_model cfg.model_path ev ≡ true
        → is_interesting ev.kind ≡ true
        → (watch w (before ++ (t, ev) ∷ after)).snapshot ≡ m
    unfolding watch
    watch-reloaded w [] after ev c h k =
        let g = receive-drains w ev h k in
        watch-current (receive w (t, ev)) after g (receive-IsCurrent w (t, ev) c g)
    watch-reloaded w (e ∷ before) after ev c h k =
        watch-reloaded (receive w e) before after ev (receive-IsCurrent w e c) h k

  -- The watcher at its start, before anything was drained.
  abbrev pub started : ModelSnapshot S → Watch S
  started snap = record { snapshot = snap; next_from = 0; free_at = 0 }

  -- A change of the model is not missed: whatever other events come before it and after it, within its
  -- debounce or while a model is being built, and however long the builds take, if an event at time t
  -- says that the model's file was modified or created, and every build from t on gives the model m, then
  -- m is what is served in the end, whatever was served before.
  pub watch-reloads :
      (snap m : ModelSnapshot S) (t : ℕ) (ev : Event) (before after : List (ℕ × Event))
      → ((now : ℕ) → t ≤ now → build rt cfg now ≡ some m)
      → touches_model cfg.model_path ev ≡ true
      → is_interesting ev.kind ≡ true
      → (watch (started snap) (before ++ (t, ev) ∷ after)).snapshot ≡ m
  watch-reloads snap m t ev before after built =
      watch-reloaded t m built (started snap) before after ev (λ h. absurd (omega (arith, h)))

  receive-keeps :
      (w : Watch S) (e : ℕ × Event)
      → ((now : ℕ) → build rt cfg now ≡ none)
      → (receive w e).snapshot ≡ w.snapshot
  unfolding receive reload
  receive-keeps w (u, ev) h =
      if_intro {A = Watch S} (λ r. r.snapshot ≡ w.snapshot) (ltb u w.next_from) _ _ (λ _. refl)
        (λ _.
          if_intro {A = Watch S} (λ r. r.snapshot ≡ w.snapshot)
            (not (touches_model cfg.model_path ev)) _ _ (λ _. refl)
            (λ _.
              if_intro {A = Watch S} (λ r. r.snapshot ≡ w.snapshot) (not (is_interesting ev.kind)) _
                _ (λ _. refl) (λ _. rw (h (max u w.free_at + debounce)) refl)))

  -- While no build succeeds, what was served at first stays.
  pub watch-keeps :
      (w : Watch S) (es : List (ℕ × Event))
      → ((now : ℕ) → build rt cfg now ≡ none)
      → (watch w es).snapshot ≡ w.snapshot
  unfolding watch
  watch-keeps w [] h = refl
  watch-keeps w (e ∷ es) h = watch-keeps (receive w e) es h ∙ receive-keeps w e h
