-- ===== src/Relay/Delivery.antt =====
-- What src/application/live-relay.ts emits and keeps is what it has accepted.
use dsh_codex_workflow.Common.{
  ℕ, zero, suc, ◌+◌, ◌-◌, ◌≤◌, min, String, ◌≡◌, refl, sym, ap, subst, ◌∙◌, inl, inr, true, false,
  List, [], ◌∷◌, ◌++◌, arith, ltb, leb, if◌then◌else◌, Bool-cases, length, drop, take-append-drop,
}
use dsh_codex_workflow.Projection.Live.{Text, clip, LiveEntry}
use dsh_codex_workflow.Relay.{
  Relay, is_nil, flush, total_length, chunk, allowance, limit_of, piece, push_piece, push_pieces,
  accepted_text, accept, on_progress,
}

abbrev pub texts : List LiveEntry → Text
texts [] = []
texts (e ∷ es) = e.text ++ texts es

abbrev pub batches : List (List LiveEntry) → Text
batches [] = []
batches (es ∷ rest) = texts es ++ batches rest

-- All text that the relay has emitted or keeps, in order.
abbrev pub delivered : Relay → Text
delivered s = batches s.emitted ++ texts s.pending

append_assoc : (a b c : Text) → (a ++ b) ++ c ≡ a ++ (b ++ c)
append_assoc [] b c = refl
append_assoc (x ∷ a) b c = ap (◌∷◌ x) (append_assoc a b c)

append_nil : (a : Text) → a ++ [] ≡ a
append_nil [] = refl
append_nil (x ∷ a) = ap (◌∷◌ x) (append_nil a)

texts-append : (es fs : List LiveEntry) → texts (es ++ fs) ≡ texts es ++ texts fs
texts-append [] fs = refl
texts-append (e ∷ es) fs =
    ap (λ t. e.text ++ t) (texts-append es fs) ∙ sym (append_assoc e.text (texts es) (texts fs))

batches-append :
    (bs : List (List LiveEntry)) (es : List LiveEntry)
    → batches (bs ++ es ∷ []) ≡ batches bs ++ texts es
batches-append [] es = append_nil (texts es)
batches-append (b ∷ bs) es =
    ap (λ t. texts b ++ t) (batches-append bs es)
    ∙ sym (append_assoc (texts b) (batches bs) (texts es))

delivered-flush : (s : Relay) → delivered (flush s) ≡ delivered s
unfolding flush
delivered-flush s = elim (Bool-cases (is_nil s.pending)) [
  | inl none_kept ↦ rw none_kept refl
  | inr kept ↦
      rw kept
        (append_nil (batches (s.emitted ++ s.pending ∷ [])) ∙ batches-append s.emitted s.pending)
]

delivered-push :
    (clip_id : String → String) (p : LiveEntry) (s : Relay)
    → delivered (push_piece clip_id p s) ≡ delivered s ++ p.text
unfolding push_piece
delivered-push clip_id p s = elim (Bool-cases (leb chunk (total_length (s.pending ++ p ∷ [])))) [
  | inl full ↦ rw full (delivered-flush (record s { pending = s.pending ++ p ∷ [] }) ∙ pushed)
  | inr room ↦ rw room pushed
]
  where
    pushed : batches s.emitted ++ texts (s.pending ++ p ∷ []) ≡ delivered s ++ p.text
    pushed =
        ap (λ t. batches s.emitted ++ t)
          (texts-append s.pending (p ∷ []) ∙ ap (λ t. texts s.pending ++ t) (append_nil p.text))
        ∙ sym (append_assoc (batches s.emitted) (texts s.pending) p.text)

drop-nil : (n : ℕ) (t : Text) → length t ≤ n → drop n t ≡ []
drop-nil zero [] h = refl
drop-nil zero (x ∷ t) h = absurd (omega (arith, h))
drop-nil (suc n) [] h = refl
drop-nil (suc n) (x ∷ t) h = drop-nil n t (omega (arith, h))

drop_empty : (n : ℕ) → drop {A = ℕ} n [] ≡ []
drop_empty zero = refl
drop_empty (suc n) = refl

clip_empty : (n : ℕ) → clip n [] ≡ []
clip_empty zero = refl
clip_empty (suc n) = refl

accepted-flush : (s : Relay) → (flush s).accepted ≡ s.accepted
unfolding flush
accepted-flush s = elim (Bool-cases (is_nil s.pending)) [ inl a ↦ rw a refl | inr b ↦ rw b refl ]

accepted-push :
    (clip_id : String → String) (p : LiveEntry) (s : Relay)
    → (push_piece clip_id p s).accepted ≡ s.accepted
unfolding push_piece
accepted-push clip_id p s = elim (Bool-cases (leb chunk (total_length (s.pending ++ p ∷ [])))) [
  | inl full ↦ rw full (accepted-flush (record s { pending = s.pending ++ p ∷ [] }))
  | inr room ↦ rw room refl
]

drop-drop : (m n : ℕ) (t : Text) → drop m (drop n t) ≡ drop (n + m) t
drop-drop m zero t = ap (λ k. drop k t) (omega arith)
drop-drop m (suc n) [] = drop_empty m ∙ sym (drop_empty (suc n + m))
drop-drop m (suc n) (x ∷ t) =
    let same : suc (n + m) ≡ suc n + m = omega arith in
    drop-drop m n t ∙ ap (λ k. drop k (x ∷ t)) same

module _ (clip_id : String → String) where
  -- The loop delivers the rest of the text, if it may take as many turns as code units are left.
  delivered-pieces :
      (fuel offset : ℕ) (e : LiveEntry) (text : Text) (s : Relay)
      → length text ≤ offset + fuel
      → delivered (push_pieces clip_id fuel offset e text s) ≡ delivered s ++ drop offset text
  unfolding push_pieces
  delivered-pieces zero offset e text s h =
      sym (append_nil (delivered s))
      ∙ ap (λ t. delivered s ++ t) (sym (drop-nil offset text (omega (arith, h))))
  delivered-pieces (suc fuel) offset e text s h = elim (Bool-cases (ltb offset (length text))) [
    | inl more ↦ rw more (
        delivered-pieces fuel (offset + chunk) e text
          (push_piece clip_id (piece clip_id e offset text) s) (omega (arith, h))
        ∙ ap (λ t. t ++ drop (offset + chunk) text)
            (delivered-push clip_id (piece clip_id e offset text) s)
        ∙ append_assoc (delivered s) (clip chunk (drop offset text)) (drop (offset + chunk) text)
        ∙ ap (λ t. delivered s ++ t)
            (ap (λ t. clip chunk (drop offset text) ++ t) (sym (drop-drop chunk offset text))
              ∙ take-append-drop chunk (drop offset text)))
    | inr done ↦ rw done (
        sym (append_nil (delivered s))
        ∙ ap (λ t. delivered s ++ t) (sym (drop-nil offset text (ground arith))))
  ]

  accepted-pieces :
      (fuel offset : ℕ) (e : LiveEntry) (text : Text) (s : Relay)
      → (push_pieces clip_id fuel offset e text s).accepted ≡ s.accepted
  unfolding push_pieces
  accepted-pieces zero offset e text s = refl
  accepted-pieces (suc fuel) offset e text s = elim (Bool-cases (ltb offset (length text))) [
    | inl more ↦ rw more (
        accepted-pieces fuel (offset + chunk) e text
          (push_piece clip_id (piece clip_id e offset text) s)
        ∙ accepted-push clip_id (piece clip_id e offset text) s)
    | inr done ↦ rw done refl
  ]

  -- The part of an entry's text that a relay takes.
  abbrev pub taken : LiveEntry → Relay → Text
  taken e s = if s.closed then [] else accepted_text clip_id s e

  pub record Delivers (e : LiveEntry) (s s' : Relay) : Type 0 where
    pub in_order : delivered s' ≡ delivered s ++ taken e s
    pub counted : s'.accepted ≡ s.accepted + length (taken e s)

  accept-Delivers :
      (e : LiveEntry) (s : Relay)
      → s.closed ≡ false
      → Delivers e s (accept clip_id e (accepted_text clip_id s e) s)
  unfolding accept
  accept-Delivers e s opened = record {
    in_order =
        delivered-pieces (length text) 0 e text (record s { accepted = s.accepted + length text })
          (omega arith)
        ∙ ap (λ t. delivered s ++ t) (sym all_taken);
    counted =
        accepted-pieces (length text) 0 e text (record s { accepted = s.accepted + length text })
        ∙ ap (λ t. s.accepted + length t) (sym all_taken);
  }
    where
      text : Text
      text = accepted_text clip_id s e

      all_taken : taken e s ≡ text
      all_taken = rw opened refl

  nothing-Delivers : (e : LiveEntry) (s : Relay) → taken e s ≡ [] → Delivers e s s
  nothing-Delivers e s none_taken = record {
    in_order = rw none_taken (sym (append_nil (delivered s)));
    counted = rw none_taken (omega arith);
  }

  -- A relay emits and keeps exactly the text that it has accepted, in order and without loss: an
  -- entry adds its own text, cut to the limit of its kind and to what is left of the allowance, or
  -- nothing once the relay is closed, and counts what it adds.
  pub on_progress-Delivers : (e : LiveEntry) (s : Relay) → Delivers e s (on_progress clip_id e s)
  unfolding on_progress
  on_progress-Delivers e s = elim (Bool-cases s.closed) [
    | inl shut ↦
        subst (Delivers e s) (sym (ap (λ b. if b then s else if_text) shut))
          (nothing-Delivers e s (rw shut refl))
    | inr opened ↦
        subst (Delivers e s) (sym (ap (λ b. if b then s else if_text) opened))
          (elim (Bool-cases (is_nil e.text)) [
            | inl blank ↦
                subst (Delivers e s) (sym (ap (λ b. if b then s else if_room) blank))
                  (nothing-Delivers e s (rw opened (of_blank e.text blank)))
            | inr some_text ↦
                subst (Delivers e s) (sym (ap (λ b. if b then s else if_room) some_text))
                  (elim (Bool-cases (leb allowance s.accepted)) [
                    | inl full ↦
                        subst (Delivers e s) (sym (ap (λ b. if b then s else taking) full))
                          (nothing-Delivers e s (rw opened (of_full full)))
                    | inr room ↦
                        subst (Delivers e s) (sym (ap (λ b. if b then s else taking) room))
                          (accept-Delivers e s opened)
                  ])
          ])
  ]
    where
      of_blank :
          (t : Text)
          → is_nil t ≡ true
          → clip (min (allowance - s.accepted) (limit_of e.kind)) t ≡ []
      of_blank [] h = clip_empty (min (allowance - s.accepted) (limit_of e.kind))
      of_blank (x ∷ t) h = absurd (ground arith)

      of_full :
          leb allowance s.accepted ≡ true
          → clip (min (allowance - s.accepted) (limit_of e.kind)) e.text ≡ []
      of_full h =
          let zero_left : min (allowance - s.accepted) (limit_of e.kind) ≡ 0 = ground arith in
          ap (λ n. clip n e.text) zero_left

      taking : Relay
      taking = accept clip_id e (accepted_text clip_id s e) s

      if_room : Relay
      if_room = if leb allowance s.accepted then s else taking

      if_text : Relay
      if_text = if is_nil e.text then s else if_room
