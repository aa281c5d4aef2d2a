-- ===== src/Sender/Stages.antt =====
-- The stages of the queued items: each appends whole chunks, and the whole queue is staged.
use mathlib.Core.Path.{subst}
use ar8030_transport.Base.{
  ℕ, zero, suc, ap, append-nil, ◌+◌, ◌≤◌, ◌≡◌, ◌⊎◌, refl, sym, ◌∙◌, none, some, List, [], ◌∷◌,
  arith, length-append, ◌==◌, length, All, Bool-cases, inl, inr, get_or,
}
use ar8030_transport.ChunkStream.Deliver.{wire}
use ar8030_transport.Outq.{Outq, Item, blank, pop}
use ar8030_transport.Outq.Fifo.{IsValid, contents, entries, pop_refines, pop-some}
use ar8030_transport.Sender.Written.{Sends}
use ar8030_transport.Sender.Carried.{Carried}
use ar8030_transport.Sender.Items.{OneStaged, stage_item-OneStaged}
use ar8030_transport.Sender.Staged.{
  IsItem, IsCtx, Staged, Staged-joined, Staged-trans, Staged-self, Staged-from,
}
use ar8030_transport.Sender.Write.{Link, SendCtx, Sizes, stage_item, stage_popped, stage_from}

module _ {W : Type 0} (l : Link W) (sent : W → List ℕ) (s : Sends l sent) where
  get_or-IsItem : (items : List Item) (n : ℕ) → All IsItem items → IsItem (get_or items n blank)
  get_or-IsItem [] n a = record { codec_fits = omega arith }
  get_or-IsItem (x ∷ items) zero a = a.0
  get_or-IsItem (x ∷ items) (suc n) a = get_or-IsItem items n a.1

  pop-IsItem :
      (q : Outq)
      → All IsItem q.items
      → ((pop q).1.items ≡ q.items)
        × (((pop q).0 ≡ none) ⊎ ((i : Item) × ((pop q).0 ≡ some i) × IsItem i))
  unfolding pop
  pop-IsItem q a = elim (Bool-cases (q.count == 0)) [
    | inl e ↦ rw e (refl, inl refl)
    | inr e ↦ rw e (refl, inr (get_or q.items q.head blank, refl, get_or-IsItem q.items q.head a))
  ]

  pub stage_from-Staged :
      (n : ℕ) (z : Sizes) (c : SendCtx W)
      → z.aux_payload_max ≤ 512
      → IsCtx c
      → Staged sent c (stage_from l n z c)
  unfolding stage_from stage_popped
  stage_from-Staged zero z c small v = Staged-self sent c v
  stage_from-Staged (suc n) z c small v =
      let x = pop c.outq in
      let c1 = record c { outq = x.1 } in
      let p = pop-IsItem c.outq v.items_typed in
      let v1 : IsCtx c1 = record {
        items_typed = subst (All IsItem) (sym p.0) v.items_typed;
        seq_fits = v.seq_fits;
      } in
      elim p.1 [
        | inl e ↦
            rw (e, stage_popped)
              (Staged-from sent c c1 (stage_from-Staged n z c1 small v1) refl refl)
        | inr (i, e, typed) ↦
            let st = (stage_item-OneStaged l sent s z i c1 small typed v1).staged in
            rw (e, stage_popped)
              (Staged-from sent c c1
                (Staged-trans sent st (stage_from-Staged n z (stage_item l z i c1) small st.ctx))
                refl refl)
      ]

  -- The items of the queue, in their order, and the queue is empty then.
  pub record Queued (z : Sizes) (c c' : SendCtx W) : Type 0 where
    pub staged : Staged sent c c'
    pub carried_all : Carried l z c.aux_seq (length c.combo) (contents c.outq) staged.chunks
    pub emptied : contents c'.outq ≡ []

  -- The first item, and then the others.
  join-Queued :
      (z : Sizes) (item : Item) (c c2 d : SendCtx W) (q : Outq)
      → OneStaged l sent s z item (record c { outq = q }) c2
      → Queued z c2 d
      → contents c.outq ≡ item ∷ contents c2.outq
      → Queued z c d
  join-Queued z item c c2 d q o r split =
      let (t, both) = Staged-joined sent o.staged r.staged in
      let used : length c2.combo ≡ length c.combo + length (wire o.staged.chunks) =
        ap length o.staged.appended ∙ length-append c.combo (wire o.staged.chunks) in
      let rest =
        subst (λ n. Carried l z c2.aux_seq n (contents c2.outq) r.staged.chunks) used
          r.carried_all in
      record {
        staged = record {
          ctx = t.ctx;
          chunks = t.chunks;
          right = t.right;
          appended = t.appended;
          silent = t.silent;
        };
        carried_all =
            subst (λ items. Carried l z c.aux_seq (length c.combo) items t.chunks) (sym split)
              (c2.aux_seq, o.staged.chunks, r.staged.chunks, o.carries, both, rest);
        emptied = r.emptied;
      }

  pub stage_from-Queued :
      (n : ℕ) (z : Sizes) (c : SendCtx W)
      → z.aux_payload_max ≤ 512
      → IsCtx c
      → IsValid c.outq
      → c.outq.count ≡ n
      → Queued z c (stage_from l n z c)
  unfolding stage_from stage_popped
  stage_from-Queued zero z c small v q e = record {
    staged = record {
      ctx = v;
      chunks = [];
      right = tt;
      appended = sym (append-nil c.combo);
      silent = refl;
    };
    carried_all = rw e refl;
    emptied = rw e refl;
  }
  stage_from-Queued (suc n) z c small v q e =
      let item = get_or c.outq.items c.outq.head blank in
      let (out, left, count) = pop-some c.outq n e in
      let p = pop-IsItem c.outq v.items_typed in
      let c1 = record c { outq = (pop c.outq).1 } in
      let v1 : IsCtx c1 = record {
        items_typed = subst (All IsItem) (sym p.0) v.items_typed;
        seq_fits = v.seq_fits;
      } in
      let typed = get_or-IsItem c.outq.items c.outq.head v.items_typed in
      let o = stage_item-OneStaged l sent s z item c1 small typed v1 in
      let c2 = stage_item l z item c1 in
      let r =
        stage_from-Queued n z c2 small o.staged.ctx
          (subst IsValid (sym o.same_queue) (pop_refines c.outq q).2)
          (ap (λ y. y.count) o.same_queue ∙ count) in
      let split : contents c.outq ≡ item ∷ contents c2.outq =
        ap (entries c.outq.items c.outq.head) e
        ∙ ap (λ t. item ∷ t) (sym left ∙ ap contents (sym o.same_queue)) in
      rw (out, stage_popped) (join-Queued z item c c2 _ (pop c.outq).1 o r split)
