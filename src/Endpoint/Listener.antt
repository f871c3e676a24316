-- ===== src/Endpoint/Listener.antt =====
-- internal/endpoint/listener.go: chanListener, its Accept, Offer and Close as steps of goroutines. A
-- connection is a number. `offering` are the calls of Offer that have passed its first test; where more
-- than one case of a select is ready Go takes any, so each is a step. The 2 s timer of Offer may fire
-- in any state.
pub mod Conserved
pub mod Leak
mod Tests
use orbitproxy_go.Prelude.{ℕ, suc, ◌+◌, ◌<◌, ◌≡◌, Bool, true, false, List, [], ◌∷◌, ◌++◌, length}

-- listenAcceptBuffer
abbrev pub listen_accept_buffer : ℕ
listen_accept_buffer = 16

-- `ch`, `closed`, whether Close is draining, the pending Offers, and what became of the connections:
-- refused by Offer, given to Accept's caller, closed by Close.
pub record ChanListener : Type 0 where
  pub ch : List ℕ
  pub is_closed : Bool
  pub draining : Bool
  pub offering : List ℕ
  pub refused : List ℕ
  pub taken : List ℕ
  pub closed_conns : List ℕ

unfoldable pub new_chan_listener : ChanListener
new_chan_listener = record {
  ch = [];
  is_closed = false;
  draining = false;
  offering = [];
  refused = [];
  taken = [];
  closed_conns = [];
}

-- The first select of Offer: a closed listener refuses.
unfoldable pub offer_start : ℕ → ChanListener → ChanListener
offer_start c l = elim l.is_closed [
  | true ↦ record l { refused = c ∷ l.refused }
  | false ↦ record l { offering = c ∷ l.offering }
]

-- `l.ch <- c` in one of the other selects, and the cases that return false.
unfoldable pub offer_put : List ℕ → ℕ → List ℕ → ChanListener → ChanListener
offer_put before c after l = record l { ch = l.ch ++ c ∷ []; offering = before ++ after }

unfoldable pub offer_refuse : List ℕ → ℕ → List ℕ → ChanListener → ChanListener
offer_refuse before c after l = record l { offering = before ++ after; refused = c ∷ l.refused }

-- `c := <-l.ch` in Accept.
unfoldable pub accept : ℕ → List ℕ → ChanListener → ChanListener
accept c rest l = record l { ch = rest; taken = c ∷ l.taken }

-- Close: `close(l.closed)`, a round of its loop, and the default case that ends it.
unfoldable pub close_start : ChanListener → ChanListener
close_start l = record l { is_closed = true; draining = true }

unfoldable pub close_drain : ℕ → List ℕ → ChanListener → ChanListener
close_drain c rest l = record l { ch = rest; closed_conns = c ∷ l.closed_conns }

unfoldable pub close_end : ChanListener → ChanListener
close_end l = record l { draining = false }

-- closeOnce lets one Close run.
pub data Step (l : ChanListener) : ChanListener → Type 0 where
  puts :
      (before after : List ℕ) (c : ℕ)
      → l.offering ≡ before ++ c ∷ after
      → length l.ch < listen_accept_buffer
      → Step l (offer_put before c after l)
  refuses :
      (before after : List ℕ) (c : ℕ)
      → l.offering ≡ before ++ c ∷ after
      → Step l (offer_refuse before c after l)
  accepts : (c : ℕ) (rest : List ℕ) → l.ch ≡ c ∷ rest → Step l (accept c rest l)
  closes : l.is_closed ≡ false → Step l (close_start l)
  drains :
      (c : ℕ) (rest : List ℕ) → l.draining ≡ true → l.ch ≡ c ∷ rest → Step l (close_drain c rest l)
  ends : l.draining ≡ true → l.ch ≡ [] → Step l (close_end l)

-- The steps and the calls of Offer, with the connections that have been offered.
pub data Reach : List ℕ → ChanListener → Type 0 where
  start : Reach [] new_chan_listener
  next : {cs : List ℕ} {l l' : ChanListener} → Reach cs l → Step l l' → Reach cs l'
  offered : {cs : List ℕ} {l : ChanListener} (c : ℕ) → Reach cs l → Reach (c ∷ cs) (offer_start c l)
