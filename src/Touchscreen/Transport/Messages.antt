-- ===== src/Touchscreen/Transport/Messages.antt =====
-- connection_transport.cpp, `socket_event`: a message that comes in parts is put together.
use keg_scale_espdisplay.Prelude.{
  ℕ, ◌+◌, ◌/◌, ◌%◌, ◌≤◌, ◌<◌, ◌≡◌, refl, sym, ap, ◌∙◌, subst, ◌≢◌, ◌⊎◌, inl, inr, true, false, not,
  ◌&&◌, some, List, [], ◌∷◌, ◌++◌, arith, ◌==◌, if◌then◌else◌, same, Bool-cases, length, take, All,
  length-append, append_nil, append_assoc, pos,
}
use keg_scale_espdisplay.Touchscreen.Transport.{
  max_frame, queue_size, Frame, ScaleConnection, Transport, connection_for, put_connection,
  send_frame, EventData, received, begin_message, append_part, store_part, on_data, socket_event,
}

take_all : (xs : List ℕ) → take (length xs) xs ≡ xs
take_all [] = refl
take_all (x ∷ xs) = ap (λ ys. x ∷ ys) (take_all xs)

-- The part `p` at offset `o` of a message of `total` bytes.
abbrev pub part_of : ℕ → ℕ → ℕ → List ℕ → EventData
part_of op total o p = record {
  op_code = op;
  payload_len = pos total;
  payload_offset = pos o;
  data_len = pos (length p);
  data_ptr = p;
}

append_part-some :
    (total o : ℕ) (p : List ℕ) (a : Frame)
    → total ≤ max_frame
    → length a.bytes ≡ o
    → o + length p ≤ total
    → append_part (pos total) (pos o) (pos (length p)) p a
      ≡ some (record a { bytes = a.bytes ++ p })
append_part-some total o p a m e l = ground (arith, take_all p)

connection_for-put :
    (slot : ℕ) (c : ScaleConnection) (t : Transport)
    → (connection_for slot (put_connection slot c t) ≡ c)
      × ((put_connection slot c t).frames ≡ t.frames)
unfolding connection_for put_connection
connection_for-put slot c t = ground arith

connection_for-send_frame :
    (slot : ℕ) (f : Frame) (t : Transport)
    → connection_for slot (send_frame f t) ≡ connection_for slot t
unfolding connection_for send_frame
connection_for-send_frame slot f t = ground arith

on_data-part :
    (slot g op total o : ℕ) (p : List ℕ) (t : Transport)
    → (op ≡ 1) ⊎ (op ≡ 2)
    → total ≤ max_frame
    → o + length p ≤ total
    → (let a = begin_message slot g (part_of op total o p) (connection_for slot t).assembly in
        let b : Frame = record a { bytes = a.bytes ++ p } in
        length a.bytes ≡ o
        → on_data slot g (part_of op total o p) t ≡ store_part slot (pos total) a (some b) t)
unfolding on_data
on_data-part slot g op total o p t op_ok m l e =
    let d = part_of op total o p in
    let a = begin_message slot g d (connection_for slot t).assembly in
    let s = append_part-some total o p a m e l in
    let n : (not (op == 1) && not (op == 2)) ≡ false = ground arith in rw (n, s) refl

store_part-facts :
    (slot total : ℕ) (a b : Frame) (t : Transport)
    → (let t' = store_part slot (pos total) a (some b) t in
        (connection_for slot t' ≡ record (connection_for slot t) { assembly = b })
        × (total ≢ length b.bytes → t'.frames ≡ t.frames)
        × (total ≡ length b.bytes → length t.frames < queue_size → t'.frames ≡ t.frames ++ b ∷ []))
unfolding send_frame
store_part-facts slot total a b t =
    let t₁ = put_connection slot (record (connection_for slot t) { assembly = b }) t in
    let (c, f) = connection_for-put slot (record (connection_for slot t) { assembly = b }) t in
    let d = connection_for-send_frame slot b t₁ in
    elim (Bool-cases (total == length b.bytes)) [
      | inl e ↦ rw e (d ∙ c, λ n. absurd (n (ground arith)), λ _ l. ground arith)
      | inr e ↦ rw e (c, λ n. f, λ n. absurd (ground arith))
    ]

-- The events for the parts from offset `o` on.
abbrev pub feed : ℕ → ℕ → ℕ → ℕ → List (List ℕ) → Transport → Transport
feed token op total o [] t = t
feed token op total o (p ∷ ps) t =
    feed token op total (o + length p) ps (socket_event token (received (part_of op total o p)) t)

abbrev pub joined : List (List ℕ) → List ℕ
joined [] = []
joined (p ∷ ps) = p ++ joined ps

abbrev pub IsFilled : List ℕ → Type 0
IsFilled p = 0 < length p

module _ (token op total : ℕ) (op_ok : (op ≡ 1) ⊎ (op ≡ 2)) (total_ok : total ≤ max_frame) where
  event_part :
      (o : ℕ) (p : List ℕ) (t : Transport)
      → (connection_for (token % 2) t).generation ≡ token / 2
      → o + length p ≤ total
      → (let slot = token % 2 in
          let a =
            begin_message slot
              (token / 2)
              (part_of op total o p)
              (connection_for slot t).assembly in
          length a.bytes ≡ o
          → socket_event token (received (part_of op total o p)) t
            ≡ store_part slot (pos total) a (some (record a { bytes = a.bytes ++ p })) t)
  unfolding socket_event
  event_part o p t g l e =
      let s = on_data-part (token % 2) (token / 2) op total o p t op_ok total_ok l e in
      let f : (token / 2 == (connection_for (token % 2) t).generation) ≡ true = ground arith in
      rw f s

  begin_message-later :
      (o : ℕ) (p : List ℕ) (a : Frame)
      → 0 < o
      → begin_message (token % 2) (token / 2) (part_of op total o p) a ≡ a
  unfolding begin_message
  begin_message-later o p a h = ground arith

  -- What the event for one part does.
  event_part-facts :
      (o : ℕ) (p : List ℕ) (t : Transport) (a : Frame)
      → (connection_for (token % 2) t).generation ≡ token / 2
      → begin_message
          (token % 2)
          (token / 2)
          (part_of op total o p)
          (connection_for (token % 2) t).assembly
        ≡ a
      → length a.bytes ≡ o
      → o + length p ≤ total
      → (let t' = socket_event token (received (part_of op total o p)) t in
          let b : Frame = record a { bytes = a.bytes ++ p } in
          ((connection_for (token % 2) t').generation ≡ token / 2)
          × ((connection_for (token % 2) t').assembly ≡ b)
          × (total ≢ o + length p → t'.frames ≡ t.frames)
          × (total ≡ o + length p → length t.frames < queue_size → t'.frames ≡ t.frames ++ b ∷ []))
  event_part-facts o p t a g begun l h =
      let slot = token % 2 in
      let b : Frame = record a { bytes = a.bytes ++ p } in
      let lb : length b.bytes ≡ o + length p = omega (arith, length-append a.bytes p, l) in
      let t' = socket_event token (received (part_of op total o p)) t in
      let s : t' ≡ store_part slot (pos total) a (some b) t =
        subst
          (λ x.
            length x.bytes ≡ o
            → t' ≡ store_part slot (pos total) x (some (record x { bytes = x.bytes ++ p })) t)
          begun (event_part o p t g h) l in
      let (c, same, sent) = store_part-facts slot total a b t in
      let d = ap (λ x. connection_for slot x) s ∙ c in
      (
        ap (λ (x : ScaleConnection). x.generation) d ∙ g,
        ap (λ (x : ScaleConnection). x.assembly) d,
        λ n. ap (λ (x : Transport). x.frames) s ∙ same (λ e. n (e ∙ lb)),
        λ e q. ap (λ (x : Transport). x.frames) s ∙ sent (e ∙ sym lb) q,
      )

  feed_parts :
      (o : ℕ) (ps : List (List ℕ)) (t : Transport) (a : Frame)
      → (connection_for (token % 2) t).generation ≡ token / 2
      → ((p : List ℕ)
          → begin_message
              (token % 2)
              (token / 2)
              (part_of op total o p)
              (connection_for (token % 2) t).assembly
            ≡ a)
      → length a.bytes ≡ o
      → o + length (joined ps) ≡ total
      → o ≢ total
      → All IsFilled ps
      → length t.frames < queue_size
      → (feed token op total o ps t).frames
        ≡ t.frames ++ record a { bytes = a.bytes ++ joined ps } ∷ []
  feed_parts o [] t a g e l n m f q = absurd (omega (arith, n, m))
  feed_parts o (p ∷ ps) t a g e l n m f q =
      let b : Frame = record a { bytes = a.bytes ++ p } in
      let j = length-append p (joined ps) in
      let t' = socket_event token (received (part_of op total o p)) t in
      let (g', e', same, sent) = event_part-facts o p t a g (e p) l (omega (arith, j, n)) in
      let lb : length b.bytes ≡ o + length p = omega (arith, length-append a.bytes p, l) in
      elim (Bool-cases (total == (o + length p))) [
        | inl d ↦
            let k : total ≡ o + length p = ground arith in
            let x = no_part ps (omega (arith, j, n, k)) f.1 in rw (x, append_nil p) (sent k q)
        | inr d ↦
            let k : total ≢ o + length p = ground arith in
            let tail =
              feed_parts (o + length p) ps t' b g'
                (λ r. begin_message-later (o + length p) r _ (omega (arith, f.0)) ∙ e') lb
                (omega (arith, j, n)) (λ z. k (sym z)) f.1 (rw (same k) q) in
            tail
            ∙ ap (λ fs. fs ++ record a { bytes = (a.bytes ++ p) ++ joined ps } ∷ []) (same k)
            ∙ ap (λ bs. t.frames ++ record a { bytes = bs } ∷ [])
                (append_assoc a.bytes p (joined ps))
      ]
    where
      no_part : (ps : List (List ℕ)) → length (joined ps) ≡ 0 → All IsFilled ps → ps ≡ []
      no_part [] n f = refl
      no_part (p ∷ ps) n f = absurd (omega (arith, length-append p (joined ps), f.0))

-- A message of at most 2072 bytes that arrives in order, in parts that are not empty, for the
-- connection's generation, is queued once, as one frame with all its bytes, if the queue has room.
pub feed-frames :
    (token op : ℕ) (ps : List (List ℕ)) (t : Transport)
    → (op ≡ 1) ⊎ (op ≡ 2)
    → length (joined ps) ≤ max_frame
    → 0 < length (joined ps)
    → All IsFilled ps
    → (connection_for (token % 2) t).generation ≡ token / 2
    → length t.frames < queue_size
    → (feed token op (length (joined ps)) 0 ps t).frames
      ≡ t.frames
        ++ record {
          slot = token % 2;
          generation = token / 2;
          kind = if op == 1 then 3 else 4;
          bytes = joined ps;
        }
          ∷ []
unfolding begin_message
feed-frames token op ps t op_ok m z f g q =
    feed_parts token op (length (joined ps)) op_ok m 0 ps t
      (record {
        slot = token % 2;
        generation = token / 2;
        kind = if op == 1 then 3 else 4;
        bytes = [];
      })
      g (λ p. refl) refl (omega arith) (omega arith) f q
