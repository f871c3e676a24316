-- ===== src/Mcp/Discover/Pages.antt =====
-- internal/mcp/discover/client.go: the tools found are the first hundred of the pages.
use orbitproxy_go.Prelude.{
  ℕ, zero, suc, ◌+◌, ◌≤◌, ◌<◌, ◌≡◌, refl, sym, ap, subst, ◌∙◌, ◌⊎◌, inl, inr, Bool, true, false,
  not, ◌&&◌, ◌||◌, Text, text_eq, List, [], ◌∷◌, ◌++◌, Option, some, length, take, ltb, leb, arith,
  if◌then◌else◌, length-append, length-take, append_assoc, Bool-cases, Option-cases,
}
use mathlib.Core.List.{append-nil}
use orbitproxy_go.Mcp.Errors.{Err, Outcome, done, failed}
use orbitproxy_go.Mcp.Discover.{
  Tool, ServerInfo, ListResult, server_of, with_server, list_tools_via_transport, Json, Transport,
  max_tools, list_tools_page, add_tools, after_page, list_pages,
}

take_all {ℓ} : {A : Type ℓ} (n : ℕ) (xs : List A) → length xs ≤ n → take n xs ≡ xs
take_all zero [] h = refl
take_all (suc n) [] h = refl
take_all zero (x ∷ xs) h = absurd (omega (arith, h))
take_all (suc n) (x ∷ xs) h = ap (◌∷◌ x) (take_all n xs (omega (arith, h)))

take_full {ℓ} : {A : Type ℓ} (n : ℕ) (xs ys : List A) → length xs ≡ n → take n (xs ++ ys) ≡ xs
take_full zero [] ys h = refl
take_full (suc n) [] ys h = absurd (omega (arith, h))
take_full zero (x ∷ xs) ys h = absurd (omega (arith, h))
take_full (suc n) (x ∷ xs) ys h = ap (◌∷◌ x) (take_full n xs ys (omega (arith, h)))

add_tools_lem :
    (tools page : List Tool)
    → length tools ≤ max_tools
    → ((add_tools tools page).0 ≡ take max_tools (tools ++ page))
      × ((add_tools tools page).1 ≡ ltb max_tools (length (tools ++ page)))
unfolding add_tools
add_tools_lem tools [] h = (
  sym (rw (append-nil tools) (take_all max_tools tools h)),
  ground (arith, length-append tools []),
)
add_tools_lem tools (t ∷ page) h = elim (Bool-cases (leb max_tools (length tools))) [
  | inl full ↦ rw full (
    sym (take_full max_tools tools (t ∷ page) (ground (arith, full))),
    ground (arith, length-append tools (t ∷ page), full),
  )
  | inr room ↦
      let (kept, cut) =
        add_tools_lem (tools ++ t ∷ []) page (ground (arith, length-append tools (t ∷ []), room)) in
      let same = append_assoc tools (t ∷ []) page in
      rw room (kept ∙ ap (take max_tools) same, cut ∙ ap (λ l. ltb max_tools (length l)) same)
]

-- Whether something is left out: a tool of the pages, or a page that the last cursor announces when the
-- limit is reached.
abbrev pub is_cut : ℕ → Text → Bool
is_cut k last = ltb max_tools k || (leb max_tools k && not (text_eq last []))

-- With the limit reached, the two ways to tell that something is left out agree.
cut_lem :
    (page tools : List Tool) (next : Text)
    → (if not (text_eq next []) || ltb max_tools (length page)
        then true
        else ltb max_tools (length (tools ++ page)) || false)
      ≡ (ltb max_tools (length (tools ++ page)) || not (text_eq next []))
cut_lem page tools next =
    let size = length-append tools page in
    elim (Bool-cases (text_eq next [])) [
      | inl stops ↦ rw stops (ground (arith, size))
      | inr goes_on ↦ rw goes_on (ground (arith, size))
    ]

leb_le : (a b : ℕ) → leb a b ≡ true → a ≤ b
leb_le a b h = ground arith

add_tools-eq :
    (tools page : List Tool)
    → length tools ≤ max_tools
    → add_tools tools page
      ≡ (take max_tools (tools ++ page), ltb max_tools (length (tools ++ page)))
add_tools-eq tools page few = let (kept, cut) = add_tools_lem tools page few in cc (kept, cut)

-- How a result can come out of two tests.
picked :
    (b c : Bool) (x y r : List Tool × Bool) (z : Option (Outcome (List Tool × Bool)))
    → (if b then some (done x) else if c then some (done y) else z) ≡ some (done r)
    → ((b ≡ true) × (x ≡ r))
      ⊎ ((b ≡ false) × (c ≡ true) × (y ≡ r))
      ⊎ ((b ≡ false) × (c ≡ false) × (z ≡ some (done r)))
picked true c x y r z h = inl (refl, cc h)
picked false true x y r z h = inr (inl (refl, refl, cc h))
picked false false x y r z h = inr (inr (refl, refl, h))

pub leb_gt : (a b : ℕ) → leb a b ≡ false → b < a
leb_gt a b h = ground arith

not_cut : (k : ℕ) (last : Text) → k < max_tools → false ≡ is_cut k last
not_cut k last h = elim (Bool-cases (text_eq last [])) [
  | inl stops ↦ rw stops (ground arith)
  | inr goes_on ↦ rw goes_on (ground arith)
]

-- A round, by the list with the whole page.
abbrev pub round :
    List Tool
    → List Tool
    → Text
    → Text
    → (List Tool → Bool → Option (Outcome (List Tool × Bool)))
    → Option (Outcome (List Tool × Bool))
round tools page cursor next rest =
    if leb max_tools (length (tools ++ page))
    then some (done (take max_tools (tools ++ page), is_cut (length (tools ++ page)) next))
    else if text_eq next [] || text_eq next cursor
    then some (done (tools ++ page, false))
    else rest (tools ++ page) false

after_page-round :
    (tools page : List Tool) (cursor next : Text)
    (rest : List Tool → Bool → Option (Outcome (List Tool × Bool)))
    → length tools ≤ max_tools
    → after_page false page cursor next
        (take max_tools (tools ++ page), ltb max_tools (length (tools ++ page)))
        rest
      ≡ round tools page cursor next rest
unfolding after_page
after_page-round tools page cursor next rest few =
    elim (Bool-cases (leb max_tools (length (tools ++ page)))) [
      | inl full ↦
          let size : length (take max_tools (tools ++ page)) ≡ max_tools = omega (
            arith,
            length-take max_tools (tools ++ page),
            leb_le max_tools (length (tools ++ page)) full,
          ) in
          rw full (
            rw size (
              ap (λ cut. some (done (take max_tools (tools ++ page), cut)))
                (cut_lem page tools next)))
      | inr room ↦
          let all : take max_tools (tools ++ page) ≡ tools ++ page =
            take_all max_tools (tools ++ page) (ground (arith, room)) in
          let uncut : ltb max_tools (length (tools ++ page)) ≡ false = ground (arith, room) in
          rw all (rw uncut (rw room refl))
    ]

pub Server-cases :
    (o : Outcome ServerInfo)
    → ((info : ServerInfo) × (o ≡ done info)) ⊎ ((e : Err) × (o ≡ failed e))
Server-cases (done info) = inl (info, refl)
Server-cases (failed e) = inr (e, refl)

module _ (json : Json) (transport : Transport) where
  -- The pages that are to be asked for from a cursor on, where the pages before have `k` tools: all
  -- their tools, and the last cursor. A page is the last one exactly if it fills the hundred, or if its
  -- cursor is empty or the one that it was asked for with.
  pub data Pages : ℕ → ℕ → Text → List Tool → Text → Type 0 where
    last_page :
        (k id : ℕ) (cursor : Text) (page : List Tool) (next : Text)
        → list_tools_page json transport id cursor ≡ done (page, next)
        → (max_tools ≤ k + length page) ⊎ ((text_eq next [] || text_eq next cursor) ≡ true)
        → Pages k id cursor page next
    more_pages :
        (k id : ℕ) (cursor : Text) (page rest : List Tool) (next last : Text)
        → list_tools_page json transport id cursor ≡ done (page, next)
        → k + length page < max_tools
        → (text_eq next [] || text_eq next cursor) ≡ false
        → Pages (k + length page) (id + 1) next rest last
        → Pages k id cursor (page ++ rest) last

  pub Outcome-cases :
      (o : Outcome (List Tool × Text))
      → ((p : List Tool × Text) × (o ≡ done p)) ⊎ ((e : Err) × (o ≡ failed e))
  Outcome-cases (done p) = inl (p, refl)
  Outcome-cases (failed e) = inr (e, refl)

  -- One round of the loop, by what the page makes of the list.
  pub list_pages-round :
      (n : ℕ) (tools page : List Tool) (cursor next : Text) (id : ℕ)
      → length tools ≤ max_tools
      → list_tools_page json transport id cursor ≡ done (page, next)
      → list_pages json transport (suc n) tools false cursor id
        ≡ round tools page cursor next
            (λ all truncated. list_pages json transport n all truncated next (id + 1))
  unfolding list_pages
  list_pages-round n tools page cursor next id few got =
      let rest = λ (all : List Tool) (truncated : Bool).
        list_pages json transport n all truncated next (id + 1) in
      rw (got, list_pages)
        (ap (λ added. after_page false page cursor next added rest) (add_tools-eq tools page few)
          ∙ after_page-round tools page cursor next rest few)

  -- What a result says of the pages from a cursor on, to which `tools` are found already.
  abbrev pub FromPages : List Tool → ℕ → Text → List Tool × Bool → Type 0
  FromPages tools id cursor (found, truncated) =
      (more : List Tool) × (last : Text) × Pages (length tools) id cursor more last
      × (found ≡ take max_tools (tools ++ more))
      × (truncated ≡ is_cut (length (tools ++ more)) last)

  FromPages-more_pages :
      (tools page : List Tool) (id : ℕ) (cursor next : Text) (r : List Tool × Bool)
      → list_tools_page json transport id cursor ≡ done (page, next)
      → length (tools ++ page) < max_tools
      → (text_eq next [] || text_eq next cursor) ≡ false
      → FromPages (tools ++ page) (id + 1) next r
      → FromPages tools id cursor r
  FromPages-more_pages tools page id cursor next (found, truncated) got room on
        (rest, last, ps, is, cut) =
      let same = append_assoc tools page rest in
      let size = length-append tools page in
      (
        page ++ rest,
        last,
        more_pages (length tools) id cursor page rest next last got (omega (arith, room, size)) on
            (subst (λ k. Pages k (id + 1) next rest last) size ps),
        is ∙ ap (take max_tools) same,
        cut ∙ ap (λ l. is_cut (length l) last) same,
      )

  list_pages-FromPages :
      (n : ℕ) (tools : List Tool) (cursor : Text) (id : ℕ) {r : List Tool × Bool}
      → length tools ≤ max_tools
      → list_pages json transport n tools false cursor id ≡ some (done r)
      → FromPages tools id cursor r
  list_pages-FromPages zero tools cursor id few h = unfold list_pages in cc h
  list_pages-FromPages (suc n) tools cursor id {r} few h =
      elim (Outcome-cases (list_tools_page json transport id cursor)) [
        | inr (e, failed_page) ↦ absurd (unfold list_pages in ground (arith, failed_page, h))
        | inl ((page, next), got) ↦
            let rest = list_pages json transport n (tools ++ page) false next (id + 1) in
            elim (picked (leb max_tools (length (tools ++ page)))
              (text_eq next [] || text_eq next cursor)
              (take max_tools (tools ++ page), is_cut (length (tools ++ page)) next)
              (tools ++ page, false) r rest
              (sym (list_pages-round n tools page cursor next id few got) ∙ h)) [
                | inl (full, e) ↦ subst (FromPages tools id cursor) e (
                  page,
                  next,
                  last_page (length tools) id cursor page next got (
                      inl (
                        omega (
                          arith,
                          length-append tools page,
                          leb_le max_tools (length (tools ++ page)) full,
                        ))),
                  refl,
                  refl,
                )
                | inr (inl (room, stops, e)) ↦
                    let small = leb_gt max_tools (length (tools ++ page)) room in
                    subst (FromPages tools id cursor) e (
                      page,
                      next,
                      last_page (length tools) id cursor page next got (inr stops),
                      sym (take_all max_tools (tools ++ page) (omega (arith, small))),
                      not_cut (length (tools ++ page)) next small,
                    )
                | inr (inr (room, goes_on, again)) ↦
                    let small = leb_gt max_tools (length (tools ++ page)) room in
                    FromPages-more_pages tools page id cursor next r got small goes_on (
                      list_pages-FromPages n (tools ++ page) next (id + 1) (omega (arith, small))
                        again)
              ]
      ]

  take_few : (xs : List Tool) → length (take max_tools xs) ≤ max_tools
  take_few xs = omega (arith, length-take max_tools xs)

  with_server-done :
      (info : ServerInfo) (o : Outcome (List Tool × Bool)) {r : ListResult}
      → with_server info o ≡ done r
      → o ≡ done (r.tools, r.truncated)
  unfolding with_server
  with_server-done info (failed e) h = absurd (ground (arith, h))
  with_server-done info (done (tools, truncated)) h = ground arith

  -- What a result of ListToolsViaTransport is made of.
  listed :
      (n : ℕ) (ready : Option ServerInfo) (r : ListResult)
      → list_tools_via_transport json transport n ready ≡ some (done r)
      → list_pages json transport n [] false [] 2 ≡ some (done (r.tools, r.truncated))
  unfolding list_tools_via_transport
  listed n ready r h = elim (Option-cases (list_pages json transport n [] false [] 2)) [
    | inl out ↦ elim (Server-cases (server_of json transport ready)) [
      | inl (info, up) ↦ absurd (ground (arith, out, up, h))
      | inr (e, down) ↦ absurd (ground (arith, down, h))
    ]
    | inr (o, found) ↦ elim (Server-cases (server_of json transport ready)) [
      | inl (info, up) ↦
          let same : with_server info o ≡ done r = ground (arith, found, up, h) in
          found ∙ ap some (with_server-done info o same)
      | inr (e, down) ↦ absurd (ground (arith, down, h))
    ]
  ]

  -- If ListToolsViaTransport gives a result, its tools are the first hundred of those on the pages that
  -- the server gave: the page for no cursor, and after each page the one for its cursor, up to the first
  -- page that fills the hundred or whose cursor is empty or the one that it was asked for with.
  -- `truncated` says exactly whether a tool of these pages was left out or, with a hundred found, another
  -- page was announced; the tools are never more than a hundred.
  pub list_tools_via_transport-FromPages :
      (n : ℕ) (ready : Option ServerInfo) (r : ListResult)
      → list_tools_via_transport json transport n ready ≡ some (done r)
      → FromPages [] 2 [] (r.tools, r.truncated) × (length r.tools ≤ max_tools)
  list_tools_via_transport-FromPages n ready r h =
      let found = listed n ready r h in
      let (more, last, ps, is, cut) = list_pages-FromPages n [] [] 2 (omega arith) found in
      ((more, last, ps, is, cut), subst (λ xs. length xs ≤ max_tools) (sym is) (take_few more))
