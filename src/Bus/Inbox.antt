-- ===== src/Bus/Inbox.antt =====
-- agents/bus.py: what a receiver gets, and what it is never given again.
use hollow_agent_os.Base.{
  ℕ, ◌-◌, ◌≤◌, ◌≡◌, ◌≢◌, refl, sym, ap, ◌∙◌, String, ◌==◌, eq_iff, Bool, true, false, ◌&&◌, some,
  List, [], ◌∷◌, arith, inl, inr, if_ind, Bool-cases, Option-cases, leb, max, length, All, All-map,
  filter, get_or,
}
use hollow_agent_os.Dict
use hollow_agent_os.Dict.{Dict, get-put, get-put_self, Holds, Holds-put}
use hollow_agent_os.Bus.{Bus, Message, is_alive, take_step, take_messages, receive, send}

abbrev Taken : Type 0
Taken = List Message × Dict Message

take_step_ind {κ} :
    (P : Taken → Type κ) (unread_only : Bool) (limit : ℕ) (i : String) (m : Message)
    (all : Dict Message) (skipped taken : Taken)
    → ((unread_only && m.read) ≡ true → P skipped)
    → ((unread_only && m.read) ≡ false
        → leb limit 1 ≡ true
        → P (record m { read = true } ∷ [], Dict.put i (record m { read = true }) all))
    → ((unread_only && m.read) ≡ false
        → leb limit 1 ≡ false
        → P (record m { read = true } ∷ taken.0, taken.1))
    → P (take_step unread_only limit i m all skipped taken)
unfolding take_step
take_step_ind P unread_only limit i m all skipped taken skip last more =
    if_ind P (unread_only && m.read) _ _ skip
      (λ fresh. if_ind P (leb limit 1) _ _ (last fresh) (more fresh))

take_messages-length :
    (unread_only : Bool) (limit : ℕ) (is : List String) (all : Dict Message)
    → length (take_messages unread_only limit is all).0 ≤ max 1 limit
unfolding take_messages
take_messages-length unread_only limit [] all = omega arith
take_messages-length unread_only limit (i ∷ is) all = elim (Option-cases (Dict.get i all)) [
  | inl e ↦ rw (e, take_messages) (take_messages-length unread_only limit is all)
  | inr (m, e) ↦
      rw (e, take_messages)
        (take_step_ind (λ (r : Taken). length r.0 ≤ max 1 limit) unread_only limit i m all _ _
          (λ skip. take_messages-length unread_only limit is all) (λ fresh last. omega arith)
          (λ fresh more.
            let rest =
              take_messages-length unread_only (limit - 1) is
                (Dict.put i (record m { read = true }) all) in
            ground (arith, rest)))
]

-- A message that was read stays as it is.
abbrev StaysRead : Dict Message → Dict Message → Type 0
StaysRead all all' =
    (i : String) (m : Message) → Dict.get i all ≡ some m → m.read ≡ true → Dict.get i all' ≡ some m

put-StaysRead :
    (i : String) (m m' : Message) (all : Dict Message)
    → Dict.get i all ≡ some m
    → m.read ≡ false
    → StaysRead all (Dict.put i m' all)
put-StaysRead i m m' all e unread j n f r = elim (Bool-cases (i == j)) [
  | inl q ↦
      let same : m ≡ n = ground (arith, ap (λ k. Dict.get k all) ((eq_iff i j).0 q)) in
      ground (arith, ap (λ (x : Message). x.read) same)
  | inr q ↦ ground (arith, get-put i j m' all)
]

take_messages-StaysRead :
    (limit : ℕ) (is : List String) (all : Dict Message)
    → StaysRead all (take_messages true limit is all).1
unfolding take_messages
take_messages-StaysRead limit [] all = λ j n f r. f
take_messages-StaysRead limit (i ∷ is) all = elim (Option-cases (Dict.get i all)) [
  | inl e ↦ rw (e, take_messages) (take_messages-StaysRead limit is all)
  | inr (m, e) ↦
      let m' = record m { read = true } in
      rw (e, take_messages)
        (take_step_ind (λ (r : Taken). StaysRead all r.1) true limit i m all _ _
          (λ skip. take_messages-StaysRead limit is all)
          (λ fresh last. put-StaysRead i m m' all e fresh)
          (λ fresh more j n f r.
            take_messages-StaysRead (limit - 1) is (Dict.put i m' all) j n
              (put-StaysRead i m m' all e fresh j n f r) r))
]

-- The message was unread in `all`, and is filed as read in `all'`.
abbrev pub WasUnread : Dict Message → Dict Message → Message → Type 0
WasUnread all all' m =
    (i : String) × (m0 : Message) × (Dict.get i all ≡ some m0)
    × (m0.read ≡ false)
    × (m ≡ record m0 { read = true })
    × (Dict.get i all' ≡ some m)

-- What was unread after one message was taken was unread before it.
WasUnread-put :
    (i : String) (m : Message) (all all' : Dict Message) (ms : List Message)
    → All (WasUnread (Dict.put i (record m { read = true }) all) all') ms
    → All (WasUnread all all') ms
WasUnread-put i m all all' [] h = tt
WasUnread-put i m all all' (n ∷ ms) ((j, n0, f, unread, same, g), h) =
    let m' = record m { read = true } in
    let before : Dict.get j all ≡ some n0 = elim (Bool-cases (i == j)) [
      | inr q ↦ ground (arith, get-put i j m' all)
      | inl q ↦
          let taken : m' ≡ n0 = ground (arith, get-put i j m' all) in
          ground (arith, ap (λ (x : Message). x.read) taken)
    ] in
    ((j, n0, before, unread, same, g), WasUnread-put i m all all' ms h)

take_messages-WasUnread :
    (limit : ℕ) (is : List String) (all : Dict Message)
    → All (WasUnread all (take_messages true limit is all).1) (take_messages true limit is all).0
unfolding take_messages
take_messages-WasUnread limit [] all = tt
take_messages-WasUnread limit (i ∷ is) all = elim (Option-cases (Dict.get i all)) [
  | inl e ↦ rw (e, take_messages) (take_messages-WasUnread limit is all)
  | inr (m, e) ↦
      let m' = record m { read = true } in
      let all1 = Dict.put i m' all in
      rw (e, take_messages)
        (take_step_ind (λ (r : Taken). All (WasUnread all r.1) r.0) true limit i m all _ _
          (λ skip. take_messages-WasUnread limit is all)
          (λ fresh last. ((i, m, e, fresh, refl, get-put_self i m' all), tt))
          (λ fresh more. (
            (
              i,
              m,
              e,
              fresh,
              refl,
              take_messages-StaysRead (limit - 1) is all1 i m' (get-put_self i m' all) refl,
            ),
            WasUnread-put i m all _ _ (take_messages-WasUnread (limit - 1) is all1),
          )))
]

-- A receive of unread messages gives at most `limit` of them, one at least being allowed, and each
-- was unread before and is filed as read after, for every queue that holds it.
pub receive-WasUnread :
    (b : Bus) (agent_id : String) (limit now : ℕ)
    → let (results, b') = receive b agent_id true limit now in
      (length results ≤ max 1 limit) × All (WasUnread b.objects b'.objects) results
unfolding receive
receive-WasUnread b agent_id limit now =
    let q = filter (is_alive now b.objects) (get_or (Dict.get agent_id b.queues) []) in
    (take_messages-length true limit q b.objects, take_messages-WasUnread limit q b.objects)

-- Every message object is stored under its own identifier, as `send` does: no two have the same.
abbrev pub IsNamed : Dict Message → Type 0
IsNamed all = Holds (λ i m. m.msg_id ≡ i) all

put-IsNamed :
    (i : String) (m : Message) (all : Dict Message)
    → Dict.get i all ≡ some m
    → IsNamed all
    → IsNamed (Dict.put i (record m { read = true }) all)
put-IsNamed i m all e h =
    Holds-put {P = λ i m. m.msg_id ≡ i} i (record m { read = true }) all (h i m e) h

take_messages-IsNamed :
    (limit : ℕ) (is : List String) (all : Dict Message)
    → IsNamed all
    → IsNamed (take_messages true limit is all).1
unfolding take_messages
take_messages-IsNamed limit [] all h = h
take_messages-IsNamed limit (i ∷ is) all h = elim (Option-cases (Dict.get i all)) [
  | inl e ↦ rw (e, take_messages) (take_messages-IsNamed limit is all h)
  | inr (m, e) ↦
      rw (e, take_messages)
        (take_step_ind (λ (r : Taken). IsNamed r.1) true limit i m all _ _
          (λ skip. take_messages-IsNamed limit is all h) (λ fresh last. put-IsNamed i m all e h)
          (λ fresh more.
            take_messages-IsNamed (limit - 1) is (Dict.put i (record m { read = true }) all)
              (put-IsNamed i m all e h)))
]

receive-IsNamed :
    (b : Bus) (agent_id : String) (limit now : ℕ)
    → IsNamed b.objects
    → IsNamed (receive b agent_id true limit now).1.objects
unfolding receive
receive-IsNamed b agent_id limit now h =
    take_messages-IsNamed limit
      (filter (is_alive now b.objects) (get_or (Dict.get agent_id b.queues) [])) b.objects h

differ :
    (all all1 all2 : Dict Message) (m n : Message)
    → IsNamed all
    → IsNamed all1
    → WasUnread all all1 m
    → WasUnread all1 all2 n
    → m.msg_id ≢ n.msg_id
differ all all1 all2 m n h h1 (i, m0, f, unread, same, g) (j, n0, f1, unread1, same1, g1) e =
    let at_i : i ≡ m.msg_id = sym (h1 i m g) in
    let at_j : n.msg_id ≡ j = ap (λ (x : Message). x.msg_id) same1 ∙ h1 j n0 f1 in
    let here : m ≡ n0 = ground (arith, ap (λ k. Dict.get k all1) (at_i ∙ e ∙ at_j)) in
    ground (arith, ap (λ (x : Message). x.read) here, ap (λ (x : Message). x.read) same)

-- Where every message object is stored under its own identifier, so that no two have the same, no
-- message is given twice by two receives of unread messages, not to the same receiver and not to
-- another one: a broadcast that one receiver has read is not given to the others. After them each
-- object is still stored under its identifier, and so it is after one further `send`.
pub receive_once :
    (b : Bus) (reader other : String) (limit limit' now now' : ℕ)
    → IsNamed b.objects
    → let (first, b1) = receive b reader true limit now in
      let (second, b2) = receive b1 other true limit' now' in
      All (λ m. All (λ n. m.msg_id ≢ n.msg_id) second) first
      × IsNamed b2.objects
      × ((m : Message) → IsNamed (send b2 m).objects)
unfolding send
receive_once b reader other limit limit' now now' h =
    let b1 = (receive b reader true limit now).1 in
    let b2 = (receive b1 other true limit' now').1 in
    let named : IsNamed b1.objects = receive-IsNamed b reader limit now h in
    let named' : IsNamed b2.objects = receive-IsNamed b1 other limit' now' named in
    (
      All-map
          (λ m was.
            All-map (λ n was1. differ b.objects b1.objects b2.objects m n h named was was1)
              (receive b1 other true limit' now').0 (receive-WasUnread b1 other limit' now').1)
          (receive b reader true limit now).0 (receive-WasUnread b reader limit now).1,
      named',
      λ m. Holds-put {P = λ i n. n.msg_id ≡ i} m.msg_id m b2.objects refl named',
    )
