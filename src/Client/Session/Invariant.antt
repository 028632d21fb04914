-- ===== src/Client/Session/Invariant.antt =====
-- crates/client/src/session.rs: what holds of the table and the channels under every interleaving of
-- the requests, their guards and the reader task.
use klartext.Prelude.{
  ℕ, zero, suc, ◌+◌, ◌%◌, ◌^◌, ◌≤◌, ◌<◌, ◌≡◌, ◌≢◌, refl, sym, ap, subst, ◌∙◌, ◌⊎◌, inl, inr,
  Bool-cases, Option-cases, List, [], ◌∷◌, ◌++◌, Option, none, some, some-injective, ◌==◌, ==_iff,
  ne→==, if◌then◌else◌, err, arith,
}
use klartext.Hsfz.Frame.{HsfzFrame}
use klartext.Client.Session.{
  Answer, connection_closed, byte_or_zero, Delivery, final, pending, PendingReq, Link, update, send,
  conclude, route_frame, register, drop_guard, drain,
}
use klartext.Client.Session.Routing.{
  Routed, no_diagnostic, no_addresses, no_waiter, positive, still_pending, rejected, stray,
  route_frame-Routed,
}

-- How many final deliveries went to the channel of the generation.
abbrev pub finals : {Io : Type 0} → ℕ → List (ℕ × Delivery Io) → ℕ
finals g [] = 0
finals g ((h, final answer) ∷ mail) = (if h == g then 1 else 0) + finals g mail
finals g ((h, pending) ∷ mail) = finals g mail

finals-append :
    {Io : Type 0} (g : ℕ) (xs ys : List (ℕ × Delivery Io))
    → finals g (xs ++ ys) ≡ finals g xs + finals g ys
finals-append g [] ys = omega arith
finals-append g ((h, final answer) ∷ xs) ys = omega (arith, finals-append g xs ys)
finals-append g ((h, pending) ∷ xs) ys = finals-append g xs ys

-- The waiters have generations that were handed out, that differ from each other, and to which no
-- final delivery has gone; none has two, and one that was not handed out has none.
pub record WellFormed {Io : Type 0} (link : Link Io) : Type 0 where
  pub issued :
      (t : ℕ) (req : PendingReq) → link.table t ≡ some req → req.generation < link.next_generation
  pub unanswered :
      (t : ℕ) (req : PendingReq) → link.table t ≡ some req → finals req.generation link.mail ≡ 0
  pub distinct :
      (t u : ℕ) (a b : PendingReq)
      → link.table t ≡ some a
      → link.table u ≡ some b
      → a.generation ≡ b.generation
      → t ≡ u
  pub single : (g : ℕ) → finals g link.mail ≤ 1
  pub unborn : (g : ℕ) → link.next_generation ≤ g → finals g link.mail ≡ 0

update-none :
    (t : ℕ) (table : ℕ → Option PendingReq) (u : ℕ) (req : PendingReq)
    → update t none table u ≡ some req
    → (u ≢ t) × (table u ≡ some req)
update-none t table u req e = elim (Bool-cases (u == t)) [
  | inl same ↦ absurd (cc (rw same at e))
  | inr far ↦ ((λ q. ground (arith, far, q)), rw far at e)
]

module _ {Io : Type 0} (link : Link Io) (well : WellFormed link) where
  -- To empty a slot changes nothing else.
  WellFormed-remove : (t : ℕ) → WellFormed (record link { table = update t none link.table })
  WellFormed-remove t = record {
    issued = λ u req e. well.issued u req (update-none t link.table u req e).1;
    unanswered = λ u req e. well.unanswered u req (update-none t link.table u req e).1;
    distinct = λ u v a b e f same.
        well.distinct u v a b (update-none t link.table u a e).1 (update-none t link.table v b f).1
          same;
    single = well.single;
    unborn = well.unborn;
  }

  WellFormed-conclude :
      (t : ℕ) (req : PendingReq) (answer : Answer Io)
      → link.table t ≡ some req
      → WellFormed (conclude t req answer link)
  unfolding conclude send
  WellFormed-conclude t req answer waiter = record {
    issued = λ u r e. well.issued u r (update-none t link.table u r e).1;
    unanswered = λ u r e.
        let (far, held) = update-none t link.table u r e in
        let apart : req.generation ≢ r.generation =
          λ same. far (well.distinct u t r req held waiter (sym same)) in
        rw (finals-append, ne→== req.generation r.generation apart, well.unanswered u r held) refl;
    distinct = λ u v a b e f same.
        well.distinct u v a b (update-none t link.table u a e).1 (update-none t link.table v b f).1
          same;
    single = λ g. elim (Bool-cases (req.generation == g)) [
      | inl same ↦
          let one : finals g link.mail ≡ 0 =
            subst (λ n. finals n link.mail ≡ 0) ((==_iff _ _).0 same)
              (well.unanswered t req waiter) in
          rw (finals-append, same) (omega (arith, one))
      | inr other ↦ rw (finals-append, other) (omega (arith, well.single g))
    ];
    unborn = λ g h.
        let apart : req.generation ≢ g = λ same. omega (arith, well.issued t req waiter, h, same) in
        rw (finals-append, ne→== req.generation g apart) (omega (arith, well.unborn g h));
  }

  WellFormed-send : (req : PendingReq) → WellFormed (send req pending link)
  unfolding send
  WellFormed-send req = record {
    issued = well.issued;
    unanswered = λ u r e. rw finals-append (omega (arith, well.unanswered u r e));
    distinct = well.distinct;
    single = λ g. rw finals-append (omega (arith, well.single g));
    unborn = λ g h. rw finals-append (omega (arith, well.unborn g h));
  }

  pub WellFormed-route_frame : (frame : HsfzFrame) → WellFormed (route_frame link frame)
  WellFormed-route_frame frame = kept (route_frame-Routed link frame)
    where
      kept : {after : Link Io} → Routed link frame after → WellFormed after
      kept (no_diagnostic _) = well
      kept (no_addresses _) = well
      kept (no_waiter _ _ _ _) = well
      kept (positive src tgt req _ _ waiter _) = WellFormed-conclude src req _ waiter
      kept (still_pending src tgt req _ _ waiter _ _ _) = WellFormed-send req
      kept (rejected src tgt req _ _ waiter _ _ _) = WellFormed-conclude src req _ waiter
      kept (stray _ _ _ _ _ _ _) = well

  pub WellFormed-drop_guard :
      (target generation : ℕ) → WellFormed (drop_guard target generation link)
  unfolding drop_guard
  WellFormed-drop_guard target generation = elim (Option-cases (link.table target)) [
    | inl vacant ↦ subst WellFormed (sym (rw (vacant, drop_guard) refl)) well
    | inr (req, e) ↦ elim (Bool-cases (req.generation == generation)) [
      | inl own ↦ rw (e, own, drop_guard) (WellFormed-remove target)
      | inr newer ↦ subst WellFormed (sym (rw (e, newer, drop_guard) refl)) well
    ]
  ]

  module _ (less : link.next_generation + 1 < 2 ^ 64) where
    counted : (link.next_generation + 1) % 2 ^ 64 ≡ link.next_generation + 1
    counted = omega (arith, less)

    -- A generation that is handed out and not used.
    WellFormed-count :
        WellFormed (record link { next_generation = (link.next_generation + 1) % 2 ^ 64 })
    WellFormed-count = record {
      issued = λ u r e. omega (arith, counted, well.issued u r e);
      unanswered = well.unanswered;
      distinct = well.distinct;
      single = well.single;
      unborn = λ g h. well.unborn g (omega (arith, counted, h));
    }

    -- A generation that is handed out to a new slot.
    WellFormed-insert :
        (target sid : ℕ)
        → WellFormed (record link {
          next_generation = (link.next_generation + 1) % 2 ^ 64;
          table =
              update target
                (some (record { request_sid = sid; generation = link.next_generation }))
                link.table;
        })
    WellFormed-insert target sid = record {
      issued = λ u r e. elim (slots u r e) [
        | inl (at_target, new) ↦ omega (arith, counted, new)
        | inr (far, old) ↦ omega (arith, counted, well.issued u r old)
      ];
      unanswered = λ u r e. elim (slots u r e) [
        | inl (at_target, new) ↦ well.unborn r.generation (omega (arith, new))
        | inr (far, old) ↦ well.unanswered u r old
      ];
      distinct = λ u v a b e f same. elim (slots u a e) [
        | inl (at_target, new) ↦ elim (slots v b f) [
          | inl (at_target', new') ↦ at_target ∙ sym at_target'
          | inr (far, old) ↦ absurd (omega (arith, new, same, well.issued v b old))
        ]
        | inr (far, old) ↦ elim (slots v b f) [
          | inl (at_target', new') ↦ absurd (omega (arith, new', same, well.issued u a old))
          | inr (far', old') ↦ well.distinct u v a b old old' same
        ]
      ];
      single = well.single;
      unborn = λ g h. well.unborn g (omega (arith, counted, h));
    }
      where
        slots :
            (u : ℕ) (r : PendingReq)
            → update target
                (some (record { request_sid = sid; generation = link.next_generation }))
                link.table
                u
              ≡ some r
            → ((u ≡ target) × (r.generation ≡ link.next_generation))
              ⊎ ((u ≢ target) × (link.table u ≡ some r))
        slots u r e = elim (Bool-cases (u == target)) [
          | inl same ↦ inl (
            (==_iff _ _).0 same,
            ap (λ q. q.generation) (sym (some-injective _ _ (rw same at e))),
          )
          | inr far ↦ inr ((λ q. ground (arith, far, q)), rw far at e)
        ]

    pub WellFormed-register :
        (target : ℕ) (request : List ℕ) → WellFormed (register target request link).1
    unfolding register
    WellFormed-register target request = elim (Option-cases (link.table target)) [
      | inl vacant ↦
          subst WellFormed (sym (rw (vacant, register) refl))
            (WellFormed-insert target (byte_or_zero request 0))
      | inr (req, e) ↦ subst WellFormed (sym (rw (e, register) refl)) WellFormed-count
    ]

pub WellFormed-drain :
    {Io : Type 0} (n : ℕ) (link : Link Io) → WellFormed link → WellFormed (drain n link)
unfolding drain
WellFormed-drain zero link well = well
WellFormed-drain (suc n) link well = elim (Option-cases (link.table n)) [
  | inl vacant ↦ rw (vacant, drain) (WellFormed-drain n link well)
  | inr (req, e) ↦
      rw (e, drain)
        (WellFormed-drain n (conclude n req (err connection_closed) link)
          (WellFormed-conclude link well n req (err connection_closed) e))
]
