-- ===== src/Mcp/Discover/Ends.antt =====
-- internal/mcp/discover/client.go: when the loop over the pages ends, and when it does not.
use orbitproxy_go.Prelude.{
  ℕ, zero, suc, ◌+◌, ◌≤◌, ◌<◌, ◌≡◌, refl, ◌∙◌, inl, inr, Bool, false, ◌||◌, Text, text_eq, List, [],
  ◌++◌, Option, none, some, length, take, leb, arith, length-append, Bool-cases,
}
use orbitproxy_go.Mcp.Errors.{Outcome, done, failed}
use orbitproxy_go.Mcp.Discover.{
  Tool, ServerInfo, ListResult, Json, Transport, max_tools, list_tools_page, list_pages, server_of,
  with_server, list_tools_via_transport,
}
use orbitproxy_go.Mcp.Discover.Pages.{
  is_cut, round, leb_gt, Outcome-cases, Server-cases, list_pages-round,
}

-- A round comes to a result if the rounds that follow do.
round-total :
    (tools page : List Tool) (cursor next : Text)
    (rest : List Tool → Bool → Option (Outcome (List Tool × Bool)))
    → (leb max_tools (length (tools ++ page)) ≡ false
        → (o : Outcome (List Tool × Bool)) × (rest (tools ++ page) false ≡ some o))
    → (o : Outcome (List Tool × Bool)) × (round tools page cursor next rest ≡ some o)
round-total tools page cursor next rest more =
    elim (Bool-cases (leb max_tools (length (tools ++ page)))) [
      | inl full ↦ (
        done (take max_tools (tools ++ page), is_cut (length (tools ++ page)) next),
        rw full refl,
      )
      | inr room ↦ elim (Bool-cases (text_eq next [] || text_eq next cursor)) [
        | inl stops ↦ (done (tools ++ page, false), rw room (rw stops refl))
        | inr goes_on ↦ let (o, e) = more room in (o, rw room (rw goes_on e))
      ]
    ]

module _ (json : Json) (transport : Transport) where
  -- No page that the server gives is without a tool.
  abbrev pub GivesTools : Type 0
  GivesTools =
      (id : ℕ) (cursor next : Text) (page : List Tool)
      → list_tools_page json transport id cursor ≡ done (page, next)
      → 0 < length page

  list_pages-total :
      GivesTools
      → (n : ℕ) (tools : List Tool) (cursor : Text) (id : ℕ) → length tools ≤ max_tools
      → max_tools < n + length tools
      → (o : Outcome (List Tool × Bool)) × (list_pages json transport n tools false cursor id
          ≡ some o)
  list_pages-total gives zero tools cursor id few enough = absurd (omega (arith, few, enough))
  list_pages-total gives (suc n) tools cursor id few enough =
      elim (Outcome-cases json transport (list_tools_page json transport id cursor)) [
        | inr (e, bad) ↦ (failed e, unfold list_pages in ground (arith, bad))
        | inl ((page, next), got) ↦
            let size = length-append tools page in
            let grows = gives id cursor next page got in
            let (o, e) =
              round-total tools page cursor next
                (λ all truncated. list_pages json transport n all truncated next (id + 1))
                (λ room.
                  list_pages-total gives n (tools ++ page) next (id + 1)
                    (omega (arith, leb_gt max_tools (length (tools ++ page)) room))
                    (omega (arith, size, grows, enough))) in
            (o, list_pages-round json transport n tools page cursor next id few got ∙ e)
      ]

  -- If each page has a tool, ListToolsViaTransport comes to a result or an error after at most 101
  -- pages, whatever cursors the server gives.
  pub list_tools_via_transport-total :
      (n : ℕ) (ready : Option ServerInfo)
      → GivesTools
      → max_tools < n
      → (o : Outcome ListResult) × (list_tools_via_transport json transport n ready ≡ some o)
  unfolding list_tools_via_transport
  list_tools_via_transport-total n ready gives enough =
      let (o, e) = list_pages-total gives n [] [] 2 (omega arith) (omega (arith, enough)) in
      elim (Server-cases (server_of json transport ready)) [
        | inl (info, up) ↦ (with_server info o, ground (arith, up, e))
        | inr (f, down) ↦ (failed f, ground (arith, down))
      ]

  -- A server without tools whose two cursors alternate keeps the loop going: the test for a cursor that
  -- stays the same does not see it, and only the context of the request ends it.
  pub list_pages_endless :
      (n id : ℕ) (a b : Text)
      → text_eq a [] ≡ false
      → text_eq b [] ≡ false
      → text_eq a b ≡ false
      → text_eq b a ≡ false
      → ((i : ℕ) → list_tools_page json transport i a ≡ done ([], b))
      → ((i : ℕ) → list_tools_page json transport i b ≡ done ([], a))
      → list_pages json transport n [] false a id ≡ none
  list_pages_endless zero id a b an bn ab ba at_a at_b = unfold list_pages in refl
  list_pages_endless (suc n) id a b an bn ab ba at_a at_b =
      list_pages-round json transport n [] [] a b id (omega arith) (at_a id)
      ∙ rw bn (rw ba (list_pages_endless n (id + 1) b a bn an ba ab at_b at_a))
