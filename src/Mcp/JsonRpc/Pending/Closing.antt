-- ===== src/Mcp/JsonRpc/Pending/Closing.antt =====
-- internal/mcp/mcpstdio/jsonrpc.go: CloseAll takes no response from a channel and brings none.
use orbitproxy_go.Prelude.{ℕ, ◌≡◌, ◌≢◌, refl, sym, ◌∙◌, [], ◌∷◌, Option, none, some, Dict, arith}
use orbitproxy_go.Mcp.JsonRpc.{Message}
use orbitproxy_go.Mcp.JsonRpc.Pending.{
  Chan, closed, sent, PendingEntry, PendingMap, set_chan, close, close_entries,
}
use orbitproxy_go.Mcp.JsonRpc.Pending.Safety.{Waiting}

-- No entry has the channel.
abbrev Untouched : ℕ → Dict PendingEntry → Type 0
Untouched c [] = Unit
Untouched c ((key, e) ∷ m) = (e.ch ≢ c) × Untouched c m

Waiting-Untouched :
    (chan : ℕ → Chan) (n c : ℕ) (x : Message) (m : Dict PendingEntry)
    → chan c ≡ sent x
    → Waiting chan n m
    → Untouched c m
Waiting-Untouched chan n c x [] at w = tt
Waiting-Untouched chan n c x ((key, e) ∷ m) at w =
    (λ same. cc (at, same, w.1), Waiting-Untouched chan n c x m at w.3)

close-chan :
    (d : ℕ) (pm : PendingMap) {pm' : PendingMap}
    → close d pm ≡ some pm'
    → (c : ℕ) → pm'.chan c ≡ set_chan pm.chan d closed c
unfolding close
close-chan d pm h c = ground (arith, h)

close_entries_step :
    (o : Option PendingMap) (m : Dict PendingEntry) {pm' : PendingMap}
    → elim o [ none ↦ none | some pm₁ ↦ close_entries m pm₁ ] ≡ some pm'
    → (pm₁ : PendingMap) × (o ≡ some pm₁) × (close_entries m pm₁ ≡ some pm')
close_entries_step none m h = absurd (cc h)
close_entries_step (some pm₁) m h = (pm₁, refl, h)

-- A response that has come stays.
close_entries_keeps :
    (c : ℕ) (m : Dict PendingEntry) (pm : PendingMap) {pm' : PendingMap}
    → Untouched c m
    → close_entries m pm ≡ some pm'
    → pm'.chan c ≡ pm.chan c
unfolding close_entries
close_entries_keeps c [] pm u ran = ground (arith, ran)
close_entries_keeps c ((key, e) ∷ m) pm u ran =
    let (pm₁, first, later) = close_entries_step (close e.ch (record pm { entries = m })) m ran in
    close_entries_keeps c m pm₁ u.1 later ∙ close-chan e.ch _ first c ∙ ground (arith, u.0)

-- And none appears.
pub close_entries_back :
    (c : ℕ) (x : Message) (m : Dict PendingEntry) (pm : PendingMap) {pm' : PendingMap}
    → close_entries m pm ≡ some pm'
    → pm'.chan c ≡ sent x
    → pm.chan c ≡ sent x
unfolding close_entries
close_entries_back c x [] pm ran at = ground (arith, ran, at)
close_entries_back c x ((key, e) ∷ m) pm ran at =
    let (pm₁, first, later) = close_entries_step (close e.ch (record pm { entries = m })) m ran in
    let before : pm₁.chan c ≡ sent x = close_entries_back c x m pm₁ later at in
    let now : set_chan pm.chan e.ch closed c ≡ sent x =
      sym (close-chan e.ch (record pm { entries = m }) first c) ∙ before in
    ground (arith, now)

pub close_entries_sent :
    (c n : ℕ) (x : Message) (m : Dict PendingEntry) (pm : PendingMap) {pm' : PendingMap}
    → Waiting pm.chan n m
    → pm.chan c ≡ sent x
    → close_entries m pm ≡ some pm'
    → pm'.chan c ≡ sent x
close_entries_sent c n x m pm w at ran =
    close_entries_keeps c m pm (Waiting-Untouched pm.chan n c x m at w) ran ∙ at
