-- ===== src/Windows/Tiling.antt =====
-- internal/proxy/query_range_windowing.go: the windows follow each other without gap or overlap.
use loki_vl_proxy.Prelude.{
  ℕ, zero, suc, ◌+◌, ◌-◌, ◌*◌, ◌≤◌, ◌<◌, ◌≡◌, refl, sym, ap, ◌∙◌, ◌⊎◌, inl, inr, Bool, true, false,
  ◌&&◌, not, Option, none, some, List, [], ◌∷◌, if◌then◌else◌, ltb, ◌==◌, ==_iff, ltb→lt, lt→ltb,
  le→ltb, subst, ltb→le, arith, Bool-cases,
}
use native.Mathlib.Nat.{mod-lt}
use loki_vl_proxy.Windows.Split.{
  Window, window, max_int64, no_windows, extend_last, window_end, split_from, first_window,
  split_after,
}

-- The windows, the last first, cover the times from `start` to before `next`, each at most `step`
-- and one nanosecond long.
unfoldable pub Chain : ℕ → ℕ → List Window → ℕ → Type 0
Chain step start [] next = start ≡ next
Chain step start (w ∷ ws) next =
    (suc w.end_ns ≡ next)
    × (w.start_ns ≤ w.end_ns)
    × (w.end_ns ≤ w.start_ns + step)
    × Chain step start ws w.start_ns

-- The same, each at most `step` long, as they are before the last is extended.
unfoldable pub Strict : ℕ → ℕ → List Window → ℕ → Type 0
Strict step start [] next = start ≡ next
Strict step start (w ∷ ws) next =
    (suc w.end_ns ≡ next)
    × (w.start_ns ≤ w.end_ns)
    × (w.end_ns < w.start_ns + step)
    × Strict step start ws w.start_ns

pub Strict-Chain :
    (step start : ℕ) (ws : List Window) (next : ℕ)
    → Strict step start ws next
    → Chain step start ws next
unfolding Strict Chain
Strict-Chain step start [] next s = s
Strict-Chain step start (w ∷ ws) next (e, l, b, s) =
    (e, l, omega arith, Strict-Chain step start ws w.start_ns s)

extend_last-Chain :
    (step start end : ℕ) (ws : List Window)
    → Strict step start ws end
    → no_windows ws ≡ false
    → Chain step start (extend_last end ws) (suc end)
unfolding Strict Chain extend_last no_windows window
extend_last-Chain step start end [] s n = ground arith
extend_last-Chain step start end (w ∷ ws) (e, l, b, s) n =
    (refl, omega arith, omega arith, Strict-Chain step start ws w.start_ns s)

and_not : (a b : Bool) → (a && not b) ≡ true → (a ≡ true) × (b ≡ false)
and_not a b h = ground arith

-- Where the windows stop: at the end of the range, or after as many as are left.
unfoldable pub reach : ℕ → ℕ → ℕ → ℕ → ℕ
reach room step end cursor =
    if ltb end (cursor + room * step) then suc end else cursor + room * step

window_end-IsInside :
    (step end cursor : ℕ)
    → 0 < step
    → end ≤ max_int64
    → cursor ≤ end
    → (cursor ≤ window_end step end cursor)
      × (window_end step end cursor ≤ end)
      × (window_end step end cursor < cursor + step)
      × (((window_end step end cursor ≡ end) × (end < cursor + step))
          ⊎ (suc (window_end step end cursor) ≡ cursor + step))
unfolding window_end
window_end-IsInside step end cursor p m c = ground arith

reach-end :
    (room step end cursor : ℕ) → end < cursor + room * step → reach room step end cursor ≡ suc end
unfolding reach
reach-end room step end cursor l = simp (lt→ltb end (cursor + room * step) l) refl

pub suc_mul : (room step : ℕ) → suc room * step ≡ step + room * step
suc_mul room step = grind arith

reach-suc :
    (room step end cursor : ℕ)
    → reach room step end (cursor + step) ≡ reach (suc room) step end cursor
unfolding reach
reach-suc room step end cursor =
    ap (λ n. if ltb end n then suc end else n) (let e = suc_mul room step in omega arith)

reach-zero : (step end cursor : ℕ) → cursor ≤ suc end → cursor ≡ reach zero step end cursor
unfolding reach
reach-zero step end cursor c = elim (Bool-cases (ltb end cursor)) [
  | inl b ↦
      let l = ltb→lt end cursor b in
      simp (lt→ltb end (cursor + 0 * step) (omega arith)) (omega arith)
  | inr b ↦
      let l = ltb→le end cursor b in
      simp (le→ltb end (cursor + 0 * step) (omega arith)) (omega arith)
]

reach-window_end :
    (room step end cursor e : ℕ)
    → 0 < step
    → ((e ≡ end) × (end < cursor + step)) ⊎ (suc e ≡ cursor + step)
    → reach room step end (suc e) ≡ reach (suc room) step end cursor
reach-window_end room step end cursor e p (inl (is_end, l)) =
    let grow = suc_mul room step in
    reach-end room step end (suc e) (omega arith)
    ∙ sym (reach-end (suc room) step end cursor (omega arith))
reach-window_end room step end cursor e p (inr next) =
    ap (reach room step end) next ∙ reach-suc room step end cursor

pub split_from-Chain :
    (room step start end cursor : ℕ) (ws : List Window)
    → 0 < step
    → end ≤ max_int64
    → Strict step start ws cursor
    → cursor ≤ suc end
    → Chain step start (split_from room step end cursor ws) (reach room step end cursor)
unfolding split_from Strict window no_windows
split_from-Chain zero step start end cursor ws p m s c =
    subst (Chain step start ws) (reach-zero step end cursor c) (Strict-Chain step start ws cursor s)
split_from-Chain (suc room) step start end cursor ws p m s c =
    let to : ℕ → Type 0 = Chain step start (split_from (suc room) step end cursor ws) in
    let grow = suc_mul room step in
    elim (Bool-cases (ltb end cursor)) [
      | inl past ↦
          let l = ltb→lt end cursor past in
          let end≡ : cursor ≡ suc end = omega arith in
          let stop = reach-end (suc room) step end cursor (omega arith) in
          simp past
            (subst (Chain step start ws) (end≡ ∙ sym stop) (Strict-Chain step start ws cursor s))
      | inr inside ↦
          let e = window_end step end cursor in
          let (low, high, short, next) =
            window_end-IsInside step end cursor p m (ltb→le end cursor inside) in
          let s' : Strict step start (window cursor e ∷ ws) (suc e) = (refl, low, short, s) in
          elim (Bool-cases ((cursor == end) && not (no_windows ws))) [
            | inl last ↦
                let (at_end, some_window) = and_not (cursor == end) (no_windows ws) last in
                let end≡ = (==_iff cursor end).0 at_end in
                let stop = reach-end (suc room) step end cursor (omega arith) in
                simp (inside, last)
                  (subst (Chain step start (extend_last end ws)) (sym stop) (
                    extend_last-Chain step start end ws (subst (Strict step start ws) end≡ s)
                      some_window))
            | inr on ↦ elim (Bool-cases (e == max_int64)) [
              | inl top ↦
                  let top≡ = (==_iff e max_int64).0 top in
                  let stop = reach-end (suc room) step end cursor (omega arith) in
                  simp (inside, on, top)
                    (subst (Chain step start (window cursor e ∷ ws))
                      (ap suc (omega arith) ∙ sym stop)
                      (Strict-Chain step start (window cursor e ∷ ws) (suc e) s'))
              | inr below ↦
                  simp (inside, on, below)
                    (subst
                      (Chain step start (split_from room step end (suc e) (window cursor e ∷ ws)))
                      (reach-window_end room step end cursor e p next)
                      (split_from-Chain room step start end (suc e) (window cursor e ∷ ws) p m s'
                        (omega arith)))
            ]
          ]
    ]

unfoldable pub IsFirst : ℕ → ℕ → ℕ → Option Window → Type 0
IsFirst step start end none = start ≤ end
IsFirst step start end (some w) =
    (w.start_ns ≡ start) × (start ≤ w.end_ns) × (w.end_ns ≤ end) × (w.end_ns < start + step)

first_window-IsFirst :
    (step start end : ℕ)
    → 0 < step
    → start ≤ end
    → IsFirst step start end (first_window step start end)
unfolding first_window window IsFirst
first_window-IsFirst step start end p le = let small = mod-lt start p in ground arith

pub choose-IsFirst :
    (step start end : ℕ) (align : Bool)
    → 0 < step
    → start ≤ end
    → IsFirst step start end (if align then first_window step start end else none)
unfolding IsFirst
choose-IsFirst step start end true p le = first_window-IsFirst step start end p le
choose-IsFirst step start end false p le = le

pub split_after-Chain :
    (room step start end : ℕ) (first : Option Window)
    → 0 < step
    → start ≤ end
    → end ≤ max_int64
    → IsFirst step start end first
    → end < start + room * step
    → Chain step start (split_after (suc room) step start end first) (suc end)
unfolding split_after Chain Strict IsFirst
split_after-Chain room step start end none p le m f few =
    let grow = suc_mul room step in
    subst (Chain step start (split_from (suc room) step end start []))
      (reach-end (suc room) step end start (omega arith))
      (split_from-Chain (suc room) step start end start [] p m refl (omega arith))
split_after-Chain room step start end (some w) p le m (from, low, high, short) few =
    let s : Strict step start (w ∷ []) (suc w.end_ns) =
      (refl, omega arith, omega arith, sym from) in
    let stop = reach-end room step end (suc w.end_ns) (omega arith) in
    let less : suc room - 1 ≡ room = omega arith in
    elim (Bool-cases (w.end_ns == end)) [
      | inl e ↦ simp e (
          subst (Chain step start (w ∷ [])) (ap suc ((==_iff w.end_ns end).0 e))
            (Strict-Chain step start (w ∷ []) (suc w.end_ns) s))
      | inr e ↦
          simp (e, less)
            (subst (Chain step start (split_from room step end (suc w.end_ns) (w ∷ []))) stop
              (split_from-Chain room step start end (suc w.end_ns) (w ∷ []) p m s (omega arith)))
    ]
