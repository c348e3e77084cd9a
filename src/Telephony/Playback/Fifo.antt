-- ===== src/Telephony/Playback/Fifo.antt =====
-- The buffer is a bounded queue: what leaves it, played or dropped, leaves in the order of arrival.
use voxbench.Base.{
  ℕ, ◌+◌, ◌≤◌, ◌≡◌, refl, sym, ap, subst, ◌∙◌, Bool, true, false, none, some, List, [], ◌∷◌, ◌++◌,
  leb, length, if◌then◌else◌, arith, length-append, append_assoc, append-nil, Bool-cases, inl, inr,
  ◌⊎◌, some_inj,
}
use voxbench.Telephony.Playback.{
  PlaybackFrame, PlaybackBuffer, record_depth, put, Got, got, ended, waits, get_frame, drain, close,
}

-- One operation, with the frames that it stores and those that leave the buffer.
pub data Moves (b : PlaybackBuffer)
    : PlaybackBuffer → List PlaybackFrame → List PlaybackFrame → Type 0 where
  puts :
      (f : PlaybackFrame) (b' : PlaybackBuffer) (dropped : List PlaybackFrame)
      → put f b ≡ some (b', dropped)
      → Moves b b' (record_depth (length b'.frames) f ∷ []) dropped
  gets :
      (b' : PlaybackBuffer) (f : PlaybackFrame) → get_frame b ≡ (b', got f) → Moves b b' [] (f ∷ [])
  drains :
      (b' : PlaybackBuffer) (out : List PlaybackFrame) → drain b ≡ (b', out) → Moves b b' [] out
  closes : Moves b (close b) [] []

pub data History (b : PlaybackBuffer)
    : PlaybackBuffer → List PlaybackFrame → List PlaybackFrame → Type 0 where
  start : History b b [] []
  then_ :
      {u v : PlaybackBuffer} {stored left more out : List PlaybackFrame}
      → History b u stored left
      → Moves u v more out
      → History b v (stored ++ more) (left ++ out)

List-cases {ℓ} : {A : Type ℓ} (xs : List A) → (xs ≡ []) ⊎ ((y : A) × (ys : List A) × (xs ≡ y ∷ ys))
List-cases [] = inl refl
List-cases (y ∷ ys) = inr (y, ys, refl)

length-append_one :
    (frames : List PlaybackFrame) (f : PlaybackFrame)
    → length (frames ++ f ∷ []) ≡ length frames + 1
length-append_one frames f = length-append frames (f ∷ [])

-- What a step of the queue keeps.
abbrev Queues :
    PlaybackBuffer → (ℕ → List PlaybackFrame) → PlaybackBuffer × List PlaybackFrame → Type 0
Queues b stored x =
    (b.frames ++ stored (length x.0.frames) ≡ x.1 ++ x.0.frames)
    × (x.0.max_frames ≡ b.max_frames)
    × (length b.frames ≤ b.max_frames → length x.0.frames ≤ b.max_frames)

abbrev storing : PlaybackFrame → ℕ → List PlaybackFrame
storing f depth = record_depth depth f ∷ []

put-Queues :
    (f : PlaybackFrame) (b b' : PlaybackBuffer) (dropped : List PlaybackFrame)
    → put f b ≡ some (b', dropped)
    → Queues b (storing f) (b', dropped)
unfolding put
put-Queues f b b' dropped h = elim (Bool-cases (leb b.max_frames (length b.frames))) [
  | inr room ↦
      let frames' = b.frames ++ storing f (length b.frames + 1) in
      let made : put f b ≡ some (record b { frames = frames' }, []) = rw (room, put) refl in
      let grown = length-append_one b.frames (record_depth (length b.frames + 1) f) in
      subst (Queues b (storing f))
        (some_inj (record b { frames = frames' }, []) (b', dropped) (sym made ∙ h))
        (ap (λ d. b.frames ++ storing f d) grown, refl, λ l. ground (arith, grown))
  | inl full ↦ elim (List-cases b.frames) [
    | inl e ↦ absurd (let none_left : put f b ≡ none = rw (full, put) (rw e refl) in cc)
    | inr (first, frames, e) ↦
        let frames' = frames ++ storing f (length frames + 1) in
        let made : put f b ≡ some (record b { frames = frames' }, first ∷ []) =
          rw (full, put) (rw e refl) in
        let grown = length-append_one frames (record_depth (length frames + 1) f) in
        subst (Queues b (storing f))
          (some_inj (record b { frames = frames' }, first ∷ []) (b', dropped) (sym made ∙ h))
          (
            rw e (ap (λ d. first ∷ frames ++ storing f d) grown),
            refl,
            λ l. omega (arith, grown, ap length e),
          )
  ]
]

get_frame-Queues :
    (b b' : PlaybackBuffer) (f : PlaybackFrame)
    → get_frame b ≡ (b', got f)
    → Queues b (λ d. []) (b', f ∷ [])
unfolding get_frame
get_frame-Queues b b' f h = elim (List-cases b.frames) [
  | inl e ↦
      let made : get_frame b ≡ (b, if b.closed then ended else waits) = simp (e, get_frame) refl in
      absurd (nothing_got b.closed (ap (λ x. x.1) (sym made ∙ h)))
  | inr (first, frames, e) ↦
      let made : get_frame b ≡ (record b { frames = frames }, got first) = rw (e, get_frame) refl in
      subst taken (sym made ∙ h) (append-nil b.frames ∙ e, refl, λ l. omega (arith, ap length e))
]
  where
    nothing_got : (c : Bool) → (if c then ended else waits) ≡ got f → ⊥
    nothing_got true q = cc
    nothing_got false q = cc

    taken : PlaybackBuffer × Got → Type 0
    taken x = elim x.1 [ got g ↦ Queues b (λ d. []) (x.0, g ∷ []) | _ ↦ Unit ]

drain-Queues :
    (b b' : PlaybackBuffer) (out : List PlaybackFrame)
    → drain b ≡ (b', out)
    → Queues b (λ d. []) (b', out)
unfolding drain
drain-Queues b b' out h = subst (Queues b (λ d. [])) h (refl, refl, λ l. omega arith)

Moves-queue :
    {b b' : PlaybackBuffer} {stored left : List PlaybackFrame}
    → Moves b b' stored left
    → (b.frames ++ stored ≡ left ++ b'.frames)
      × (b'.max_frames ≡ b.max_frames)
      × (length b.frames ≤ b.max_frames → length b'.frames ≤ b.max_frames)
unfolding close
Moves-queue {b = b} (puts f b' dropped h) = put-Queues f b b' dropped h
Moves-queue {b = b} (gets b' f h) = get_frame-Queues b b' f h
Moves-queue {b = b} (drains b' out h) = drain-Queues b b' out h
Moves-queue {b = b} closes = (append-nil b.frames, refl, λ l. l)

-- Over any history of a buffer that keeps within its bound, the frames that leave it, played or
-- dropped, and those still in it are the ones that were in it and those that were stored, in that
-- order, and the buffer keeps within its bound.
pub History-fifo :
    {b v : PlaybackBuffer} {stored left : List PlaybackFrame}
    → length b.frames ≤ b.max_frames
    → History b v stored left
    → (b.frames ++ stored ≡ left ++ v.frames)
      × (v.max_frames ≡ b.max_frames)
      × (length v.frames ≤ v.max_frames)
History-fifo {b = b} l start = (append-nil b.frames, refl, l)
History-fifo {b = b} l
      (then_ {u = u} {v = v} {stored = stored} {left = left} {more = more} {out = out} p m) =
    let (e, k, n) = History-fifo l p in
    let (e', k', n') = Moves-queue m in
    (
      sym (append_assoc b.frames stored more)
          ∙ ap (λ (t : List PlaybackFrame). t ++ more) e
          ∙ append_assoc left u.frames more
          ∙ ap (λ (t : List PlaybackFrame). left ++ t) e'
          ∙ sym (append_assoc left out v.frames),
      k' ∙ k,
      omega (arith, n' n, k'),
    )
