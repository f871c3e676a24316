-- ===== src/Mcp/Tail/Refinement.antt =====
-- StderrBuffer against a sequence: whatever is written, `tail` returns the last bytes of it.
use mathlib.Core.List.{append_assoc, append-nil}
use orbitproxy_go.Prelude.{
  ℕ, zero, suc, ◌+◌, ◌-◌, ◌≤◌, ◌<◌, ◌≡◌, refl, sym, ap, subst, ◌∙◌, List, [], ◌∷◌, ◌++◌, Option,
  none, some, arith, leb, length, take, drop, last_n, length-take, length-drop, length-append, inl,
  inr, take-append-drop, length-replicate, Bool-cases,
}
use orbitproxy_go.Mcp.Tail.{
  StderrBuffer, stderr_buf_size, new_stderr_buffer, copy_at, write_last, write_wrap, write_loop,
  write, tail,
}
use orbitproxy_go.Mcp.Tail.Ring.{
  IsRing, content, stderr_buf_size_pos, last_n_append, last_n_whole, write_last-IsRing,
  content-write_last, tail-content,
}

length-content : (sb : StderrBuffer) → IsRing sb → length (content sb) ≤ stderr_buf_size
length-content sb r = ground (
  arith,
  length-append (drop sb.pos sb.buf) (take sb.pos sb.buf),
  length-take sb.pos sb.buf,
  length-drop sb.pos sb.buf,
  r.sized,
  r.inside,
)

-- A round that wraps is a last write of the bytes that fit.
write_wrap-write_last :
    (p : List ℕ) (sb : StderrBuffer)
    → IsRing sb
    → stderr_buf_size - sb.pos ≤ length p
    → write_wrap p sb ≡ write_last (take (stderr_buf_size - sb.pos) p) sb
unfolding write_wrap write_last
write_wrap-write_last p sb r h = ground (arith, length-take (stderr_buf_size - sb.pos) p, r.inside)

-- What a write has to do: the state is well formed and holds the last bytes of old and new.
record Writes (p : List ℕ) (sb sb' : StderrBuffer) : Type 0 where
  ring : IsRing sb'
  holds : content sb' ≡ last_n stderr_buf_size (content sb ++ p)

write_last-Writes :
    (p : List ℕ) (sb : StderrBuffer)
    → IsRing sb
    → sb.pos + length p ≤ stderr_buf_size
    → Writes p sb (write_last p sb)
write_last-Writes p sb r h = record {
  ring = write_last-IsRing sb p r h;
  holds = content-write_last sb p r h;
}

Writes-append :
    (p q : List ℕ) (a b c : StderrBuffer) → Writes p a b → Writes q b c → Writes (p ++ q) a c
Writes-append p q a b c f g = record {
  ring = g.ring;
  holds =
      g.holds
      ∙ ap (λ z. last_n stderr_buf_size (z ++ q)) f.holds
      ∙ last_n_append stderr_buf_size (content a ++ p) q
      ∙ ap (last_n stderr_buf_size) (append_assoc (content a) p q);
}

write_loop-Writes :
    (fuel : ℕ) (p : List ℕ) (sb : StderrBuffer)
    → IsRing sb
    → length p < fuel
    → (sb' : StderrBuffer) × (write_loop fuel p sb ≡ some sb') × Writes p sb sb'
unfolding write_loop
write_loop-Writes zero p sb r h = absurd (omega arith)
write_loop-Writes (suc fuel) [] sb r h = (
  sb,
  refl,
  record {
    ring = r;
    holds = sym (
        ap (last_n stderr_buf_size) (append-nil (content sb))
        ∙ last_n_whole stderr_buf_size (content sb) (length-content sb r));
  },
)
write_loop-Writes (suc fuel) (x ∷ p) sb r h =
    elim (Bool-cases (leb (length (x ∷ p)) (stderr_buf_size - sb.pos))) [
      | inl fits ↦ (write_last (x ∷ p) sb, rw fits, write_last-Writes (x ∷ p) sb r (ground arith))
      | inr wraps ↦
          let space = stderr_buf_size - sb.pos in
          let now = take space (x ∷ p) in
          let later = drop space (x ∷ p) in
          let wide : space ≤ length (x ∷ p) = ground arith in
          let first : Writes now sb (write_wrap (x ∷ p) sb) =
            rw (write_wrap-write_last (x ∷ p) sb r wide)
              (write_last-Writes now sb r (omega (arith, length-take space (x ∷ p), r.inside))) in
          let (sb', runs, rest) =
            write_loop-Writes fuel later (write_wrap (x ∷ p) sb) first.ring
              (omega (arith, length-drop space (x ∷ p), r.inside)) in
          (
            sb',
            rw wraps runs,
            subst (λ z. Writes z sb sb') (take-append-drop space (x ∷ p))
                (Writes-append now later sb (write_wrap (x ∷ p) sb) sb' first rest),
          )
    ]

-- Write returns on every input and reports that it took all bytes; it keeps the ring well formed,
-- and Tail then returns the last `stderr_buf_size` bytes of what it returned before followed by
-- what was written.
pub tail-write :
    (p : List ℕ) (sb : StderrBuffer)
    → IsRing sb
    → (sb' : StderrBuffer) × (write p sb ≡ some (sb', length p))
      × IsRing sb'
      × (tail sb' ≡ last_n stderr_buf_size (tail sb ++ p))
unfolding write
tail-write p sb r =
    let (sb', runs, w) = write_loop-Writes (suc (length p)) p sb r (omega arith) in
    (
      sb',
      rw (runs, write),
      w.ring,
      tail-content sb' w.ring
          ∙ w.holds
          ∙ ap (λ z. last_n stderr_buf_size (z ++ p)) (sym (tail-content sb r)),
    )

-- One Write after the other, the counts left out.
pub write_each : List (List ℕ) → StderrBuffer → Option StderrBuffer
write_each [] sb = some sb
write_each (p ∷ ps) sb = elim (write p sb) [ none ↦ none | some (sb', n) ↦ write_each ps sb' ]

abbrev pub concat : List (List ℕ) → List ℕ
concat [] = []
concat (p ∷ ps) = p ++ concat ps

pub new-IsRing : IsRing new_stderr_buffer
unfolding new_stderr_buffer
new-IsRing = record {
  sized = length-replicate {A = ℕ} stderr_buf_size 0;
  inside = stderr_buf_size_pos;
}

write_each-tail :
    (ps : List (List ℕ)) (sb : StderrBuffer)
    → IsRing sb
    → (sb' : StderrBuffer) × (write_each ps sb ≡ some sb')
      × (tail sb' ≡ last_n stderr_buf_size (tail sb ++ concat ps))
unfolding write_each
write_each-tail [] sb r =
    let whole = ap (last_n stderr_buf_size) (append-nil (tail sb)) in
    let short : length (tail sb) ≤ stderr_buf_size =
      omega (arith, ap length (tail-content sb r), length-content sb r) in
    (sb, refl, sym (whole ∙ last_n_whole stderr_buf_size (tail sb) short))
write_each-tail (p ∷ ps) sb r =
    let (sb', runs, r', now) = tail-write p sb r in
    let (sb'', goes_on, later) = write_each-tail ps sb' r' in
    (
      sb'',
      rw (runs, write_each) goes_on,
      later
          ∙ ap (λ z. last_n stderr_buf_size (z ++ concat ps)) now
          ∙ last_n_append stderr_buf_size (tail sb ++ p) (concat ps)
          ∙ ap (last_n stderr_buf_size) (append_assoc (tail sb) p (concat ps)),
    )

tail-new : tail new_stderr_buffer ≡ []
unfolding tail new_stderr_buffer copy_at
tail-new = refl

-- A new buffer after any sequence of writes returns the last `stderr_buf_size` bytes of all that
-- was written, in order, however the output was cut into writes.
pub tail-write_each :
    (ps : List (List ℕ))
    → (sb : StderrBuffer) × (write_each ps new_stderr_buffer ≡ some sb)
      × (tail sb ≡ last_n stderr_buf_size (concat ps))
tail-write_each ps =
    let (sb, runs, holds) = write_each-tail ps new_stderr_buffer new-IsRing in
    (sb, runs, holds ∙ ap (λ z. last_n stderr_buf_size (z ++ concat ps)) tail-new)
