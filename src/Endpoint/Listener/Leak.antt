-- ===== src/Endpoint/Listener/Leak.antt =====
-- internal/endpoint/listener.go: an Offer that runs beside Close.
use orbitproxy_go.Prelude.{
  ℕ, ◌<◌, ◌≡◌, refl, ap, subst, Bool, true, false, List, [], ◌∷◌, ◌++◌, length, arith,
}
use orbitproxy_go.Endpoint.Listener.{
  ChanListener, listen_accept_buffer, offer_start, offer_put, close_start, close_drain, close_end,
  puts, closes, drains, ends, Reach, next, offered,
}

-- Close drains the whole queue, one connection a round.
drain_all :
    {cs : List ℕ} (ch : List ℕ) (l : ChanListener)
    → Reach cs l
    → l.ch ≡ ch
    → l.draining ≡ true
    → l.is_closed ≡ true
    → (l' : ChanListener) × Reach cs l'
      × (l'.ch ≡ [])
      × (l'.is_closed ≡ true)
      × (l'.draining ≡ true)
      × (l'.offering ≡ l.offering)
unfolding close_drain
drain_all [] l r at going shut = (l, r, at, shut, going, refl)
drain_all (c ∷ ch) l r at going shut =
    drain_all ch (close_drain c ch l) (next r (drains c ch going at)) refl going shut

-- A connection whose Offer has passed its first test when Close begins can still be put into the
-- queue after Close has emptied it: Close has ended, Offer answers true, and the connection lies in the
-- queue of a closed listener, neither refused nor closed.
pub close_end-puts :
    {cs : List ℕ} (c : ℕ) (l : ChanListener)
    → Reach cs l
    → l.is_closed ≡ false
    → (l' : ChanListener) × Reach (c ∷ cs) l'
      × (l'.is_closed ≡ true)
      × (l'.draining ≡ false)
      × (l'.ch ≡ c ∷ [])
      × (l'.offering ≡ l.offering)
unfolding offer_start close_start close_end offer_put
close_end-puts {cs} c l r running =
    let begun : ChanListener = record l { offering = c ∷ l.offering } in
    let begun_lem : offer_start c l ≡ begun =
      ap
        (λ (b : Bool). elim b as (λ _. ChanListener) [
          | true ↦ record l { refused = c ∷ l.refused }
          | false ↦ begun
        ])
        running in
    let r₁ : Reach (c ∷ cs) begun = subst (Reach (c ∷ cs)) begun_lem (offered c r) in
    let (l₂, r₂, empty, shut, going, waiting) =
      drain_all l.ch (close_start begun) (next r₁ (closes running)) refl refl refl in
    let ended = next r₂ (ends going empty) in
    let room : length (close_end l₂).ch < listen_accept_buffer = omega (arith, ap length empty) in
    (
      offer_put [] c l.offering (close_end l₂),
      next ended (puts [] l.offering c waiting room),
      shut,
      refl,
      ap (λ q. q ++ c ∷ []) empty,
      refl,
    )
