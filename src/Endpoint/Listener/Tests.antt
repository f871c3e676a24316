-- ===== src/Endpoint/Listener/Tests.antt =====
-- Runs of a listener.
use orbitproxy_go.Prelude.{ℕ, ◌≡◌, ◌≤◌, refl, true, false, [], ◌∷◌, length, arith}
use orbitproxy_go.Endpoint.Listener.{
  ChanListener, listen_accept_buffer, new_chan_listener, offer_start, offer_put, accept, Reach,
  start, next, offered, puts, accepts,
}
use orbitproxy_go.Endpoint.Listener.Conserved.{places, count, Reach-places}
use orbitproxy_go.Endpoint.Listener.Leak.{close_end-puts}

-- Two connections are offered, the first is queued and taken.
abbrev two : ChanListener
two = offer_start 9 (offer_start 7 new_chan_listener)

abbrev one_taken : ChanListener
one_taken = accept 7 [] (offer_put (9 ∷ []) 7 [] two)

reached : Reach (9 ∷ 7 ∷ []) one_taken
unfolding offer_start offer_put accept new_chan_listener
reached =
    next (next (offered 9 (offered 7 start)) (puts (9 ∷ []) [] 7 refl (omega arith)))
      (accepts 7 [] refl)

Reach-places_example :
    ((c : ℕ) → places c one_taken ≡ count c (9 ∷ 7 ∷ []))
    × (length one_taken.ch ≤ listen_accept_buffer)
Reach-places_example = Reach-places reached

close_end-puts_example :
    (l' : ChanListener) × Reach (5 ∷ 9 ∷ 7 ∷ []) l'
    × (l'.is_closed ≡ true)
    × (l'.draining ≡ false)
    × (l'.ch ≡ 5 ∷ [])
    × (l'.offering ≡ one_taken.offering)
unfolding offer_start offer_put accept new_chan_listener
close_end-puts_example = close_end-puts 5 one_taken reached refl
