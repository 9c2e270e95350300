-- ===== src/DataChannel/Messages/Configured.antt =====
-- What a message of a channel that every peer gets meets, whatever calls configure the channel.
use mini_sfu.Base.Maps.{insert}
use mini_sfu.Base.{
  ℕ, ◌<◌, ◌≤◌, ◌≡◌, ◌≢◌, refl, ap, sym, ◌∙◌, Bool, true, false, none, some, List, [], ◌∷◌, ◌++◌,
  ◌==◌, length, set, get_or, arith, Bool-cases, inl, inr, length-append, length-set, get_or-snoc,
  get_or-append_left, get_or-set_self, get_or-set_ne,
}
use mathlib.Core.List.{append-nil, append_assoc}
use mini_sfu.Subscriber.{Subscriber}
use mini_sfu.Router.{Peer}
use mini_sfu.Router.Channels.{get_data_channels}
use mini_sfu.DataChannel.{chain, nested, chain-nested}
use mini_sfu.DataChannel.Messages.{
  World, Channel, Call, new_datachannel, use_on, on_message_of, apply, configure, call_handler,
  add_configured, made, used, latest,
}

module _ {ℓ} {Args Out : Type ℓ} where
  -- A channel after the calls.
  abbrev pub settled : ℕ → List (Call Args Out) → Channel Args Out → Channel Args Out
  settled dc calls c = record {
    label = c.label;
    middlewares = c.middlewares ++ used dc calls;
    on_message = latest dc calls c.on_message;
  }

  get_or-set_at :
      (dcs : List (Channel Args Out)) (i dc : ℕ) (f : Channel Args Out → Channel Args Out)
      → dc < length dcs
      → (i == dc) ≡ true
      → get_or (set dcs i (f (get_or dcs i (made 0)))) dc (made 0) ≡ f (get_or dcs dc (made 0))
  get_or-set_at dcs i dc f inside here =
      let same : i ≡ dc = ground (arith, here) in
      rw same (get_or-set_self dcs dc (f (get_or dcs dc (made 0))) (made 0) inside)

  get_or-set_off :
      (dcs : List (Channel Args Out)) (i dc : ℕ) (c : Channel Args Out)
      → (i == dc) ≡ false
      → get_or (set dcs i c) dc (made 0) ≡ get_or dcs dc (made 0)
  get_or-set_off dcs i dc c there =
      let apart : i ≢ dc = ground (arith, there) in get_or-set_ne dcs i dc c (made 0) apart

  configure-Channel :
      (calls : List (Call Args Out)) (dcs : List (Channel Args Out)) (dc : ℕ)
      → dc < length dcs
      → get_or (configure dcs calls) dc (made 0) ≡ settled dc calls (get_or dcs dc (made 0))
  unfolding configure apply
  configure-Channel [] dcs dc inside =
      let c = get_or dcs dc (made 0) in
      ap (λ l. record c { middlewares = l }) (sym (append-nil c.middlewares))
  configure-Channel (new_datachannel label ∷ calls) dcs dc inside =
      configure-Channel calls (dcs ++ (made label ∷ [])) dc
        (omega (arith, inside, length-append dcs (made label ∷ [])))
      ∙ ap (settled dc calls) (get_or-append_left dcs (made label ∷ []) dc (made 0) inside)
  configure-Channel (use_on i mws ∷ calls) dcs dc inside =
      let add = λ (c : Channel Args Out). record c { middlewares = c.middlewares ++ mws } in
      let changed = add (get_or dcs i (made 0)) in
      let c = get_or dcs dc (made 0) in
      let rest =
        configure-Channel calls (set dcs i changed) dc
          (omega (arith, inside, length-set dcs i changed)) in
      elim (Bool-cases (i == dc)) [
        | inl here ↦ rw here (
            rest
            ∙ ap (settled dc calls) (get_or-set_at dcs i dc add inside here)
            ∙ ap (λ l. record (settled dc calls c) { middlewares = l })
                (append_assoc c.middlewares mws (used dc calls)))
        | inr there ↦
            rw there (rest ∙ ap (settled dc calls) (get_or-set_off dcs i dc changed there))
      ]
  configure-Channel (on_message_of i fn ∷ calls) dcs dc inside =
      let put = λ (c : Channel Args Out). record c { on_message = some fn } in
      let changed = put (get_or dcs i (made 0)) in
      let rest =
        configure-Channel calls (set dcs i changed) dc
          (omega (arith, inside, length-set dcs i changed)) in
      elim (Bool-cases (i == dc)) [
        | inl here ↦ rw here (rest ∙ ap (settled dc calls) (get_or-set_at dcs i dc put inside here))
        | inr there ↦
            rw there (rest ∙ ap (settled dc calls) (get_or-set_off dcs i dc changed there))
      ]

  length-configure :
      (calls : List (Call Args Out)) (dcs : List (Channel Args Out))
      → length dcs ≤ length (configure dcs calls)
  unfolding configure apply
  length-configure [] dcs = omega arith
  length-configure (new_datachannel label ∷ calls) dcs =
      let dcs' = dcs ++ (made label ∷ []) in
      omega (arith, length-configure calls dcs', length-append dcs (made label ∷ []))
  length-configure (use_on i mws ∷ calls) dcs =
      let c = get_or dcs i (made 0) in
      let changed = record c { middlewares = c.middlewares ++ mws } in
      omega (arith, length-configure calls (set dcs i changed), length-set dcs i changed)
  length-configure (on_message_of i fn ∷ calls) dcs =
      let changed = record (get_or dcs i (made 0)) { on_message = some fn } in
      omega (arith, length-configure calls (set dcs i changed), length-set dcs i changed)

  -- a channel that is new before the calls
  new-Channel :
      (calls : List (Call Args Out)) (dcs : List (Channel Args Out)) (label : ℕ)
      → get_or (configure (dcs ++ (made label ∷ [])) calls) (length dcs) (made 0)
        ≡ settled (length dcs) calls (made label)
  new-Channel calls dcs label =
      configure-Channel calls (dcs ++ (made label ∷ [])) (length dcs)
        (omega (arith, length-append dcs (made label ∷ [])))
      ∙ ap (settled (length dcs) calls) (get_or-snoc dcs (made label) (made 0))

  -- A channel that is configured by the calls `before` and that a peer then gets: its messages go
  -- through the middlewares that those calls gave it, in order, each around the rest, and then to the
  -- handler that it has at the time of the message, also one that the calls `after` set, with the open
  -- channels of the label of the other peers of the session. Without a channel from the connection the
  -- Subscriber is not changed.
  pub messages_meet :
      (quiet : Out) (dcs : List (Channel Args Out)) (label : ℕ)
      (before after : List (Call Args Out)) (origin ndc : ℕ) (s : Subscriber) (peers : List Peer)
      (is_open : ℕ → Bool) (args : Args)
      → let dc = length dcs in
        let given = configure (apply dcs (new_datachannel label)) before in
        let later = configure given after in
        let world : World Args Out = record {
          handler_of = λ i. (get_or later i (made 0)).on_message;
          peers = peers;
          is_open = is_open;
        } in
        let last = call_handler quiet origin dc label in
        (add_configured quiet given origin dc (some ndc) s
          ≡ some
              (record s { channels = insert label ndc s.channels }, nested (used dc before) last))
        × (last world args ≡ elim (latest dc after (latest dc before none)) [
          | none ↦ quiet
          | some fn ↦ fn args (get_data_channels is_open origin label peers)
        ])
        × (add_configured quiet given origin dc none s ≡ none)
  unfolding apply add_configured call_handler
  messages_meet quiet dcs label before after origin ndc s peers is_open args =
      let dc = length dcs in
      let first = dcs ++ (made label ∷ []) in
      let given = configure first before in
      let before_it : get_or given dc (made 0) ≡ settled dc before (made label) =
        new-Channel before dcs label in
      let after_it =
        configure-Channel after given dc
          (omega (arith, length-append dcs (made label ∷ []), length-configure before first))
        ∙ ap (settled dc after) before_it in
      (
        ap
              (λ (c : Channel Args Out). some (
                record s { channels = insert c.label ndc s.channels },
                chain c.middlewares (call_handler quiet origin dc c.label),
              ))
              before_it
            ∙ ap (λ p. some (record s { channels = insert label ndc s.channels }, p))
                (chain-nested (used dc before) (call_handler quiet origin dc label)),
        ap
            (λ (c : Channel Args Out). elim c.on_message [
              | none ↦ quiet
              | some fn ↦ fn args (get_data_channels is_open origin label peers)
            ])
            after_it,
        refl,
      )
