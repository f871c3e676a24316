-- ===== src/Endpoint/Listener/Conserved.antt =====
-- internal/endpoint/listener.go: no connection is lost or handed out twice, and the queue keeps its bound.
use orbitproxy_go.Prelude.{
  ℕ, suc, ◌+◌, ◌≤◌, ◌≡◌, refl, ap, ◌∙◌, inl, inr, List, [], ◌∷◌, ◌++◌, length, ◌==◌, arith,
  if◌then◌else◌, length-append, Bool-cases,
}
use orbitproxy_go.Endpoint.Listener.{
  ChanListener, listen_accept_buffer, new_chan_listener, offer_start, offer_put, offer_refuse,
  accept, close_start, close_drain, close_end, Step, puts, refuses, accepts, closes, drains, ends,
  Reach, start, next, offered,
}

-- How often a connection stands in a list.
abbrev pub count : ℕ → List ℕ → ℕ
count c [] = 0
count c (d ∷ ds) = let rest = count c ds in if d == c then suc rest else rest

count-append : (c : ℕ) (xs ys : List ℕ) → count c (xs ++ ys) ≡ count c xs + count c ys
count-append c [] ys = omega arith
count-append c (x ∷ xs) ys = ground (arith, count-append c xs ys)

-- Where a connection is.
abbrev pub places : ℕ → ChanListener → ℕ
places c l =
    count c l.offering + count c l.refused + count c l.ch + count c l.taken + count c l.closed_conns

Step-places : {l l' : ChanListener} → Step l l' → (c : ℕ) → places c l' ≡ places c l
unfolding offer_put offer_refuse accept close_start close_drain close_end
Step-places {l} (puts before after d at room) c = ground (
  arith,
  ap (count c) at,
  count-append c before (d ∷ after),
  count-append c before after,
  count-append c l.ch (d ∷ []),
)
Step-places {l} (refuses before after d at) c =
    ground (arith, ap (count c) at, count-append c before (d ∷ after), count-append c before after)
Step-places {l} (accepts d rest at) c = ground (arith, ap (count c) at)
Step-places {l} (closes running) c = refl
Step-places {l} (drains d rest going at) c = ground (arith, ap (count c) at)
Step-places {l} (ends going at) c = refl

Step-bounded :
    {l l' : ChanListener}
    → Step l l'
    → length l.ch ≤ listen_accept_buffer
    → length l'.ch ≤ listen_accept_buffer
unfolding offer_put offer_refuse accept close_start close_drain close_end
Step-bounded {l} (puts before after d at room) b = omega (arith, length-append l.ch (d ∷ []))
Step-bounded {l} (refuses before after d at) b = b
Step-bounded {l} (accepts d rest at) b = omega (arith, ap length at)
Step-bounded {l} (closes running) b = b
Step-bounded {l} (drains d rest going at) b = omega (arith, ap length at)
Step-bounded {l} (ends going at) b = b

-- In every order of the steps of Offer, Accept and Close each connection is in as many places as it was
-- offered: it still waits in Offer, was refused, is in the queue, was given to one caller of Accept, or
-- was closed by Close; and the queue never has more than 16.
pub Reach-places :
    {cs : List ℕ} {l : ChanListener}
    → Reach cs l
    → ((c : ℕ) → places c l ≡ count c cs) × (length l.ch ≤ listen_accept_buffer)
unfolding new_chan_listener offer_start
Reach-places start = (λ c. refl, omega arith)
Reach-places (next r s) =
    let (held, bound) = Reach-places r in (λ c. Step-places s c ∙ held c, Step-bounded s bound)
Reach-places (offered {l = l} d r) =
    let (held, bound) = Reach-places r in
    elim (Bool-cases l.is_closed) [
      | inl shut ↦ (λ c. ground (arith, shut, held c), ground (arith, shut))
      | inr running ↦ (λ c. ground (arith, running, held c), ground (arith, running))
    ]
