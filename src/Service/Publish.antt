-- ===== src/Service/Publish.antt =====
-- What is published twice under one key is stored and announced once.
use ws_collab.Stream.Duplicates.{append-append_same_key}
use ws_collab.Event.RoundTrip.{IsExtra}
use ws_collab.Stream.Appending.{written_event, append_fresh}
use ws_collab.Stream.Append.{append_new, AppendResult, key_of, find_seen}
use ws_collab.Service.{
  Service, notify, reply_of, replied, publish_event, publish, Reply, Listeners, with_data,
}
use ws_collab.Event.{Event}
use ws_collab.Event.Validate.{has_key, streams, is_member, validate_new_event, Draft}
use ws_collab.Prelude.{
  ℕ, ◌+◌, ◌<◌, ◌≡◌, refl, sym, ap, subst, ◌∙◌, inl, inr, Bool, true, ◌||◌, none, some, List,
  Bool-cases, length, nat_eq, Text, text_eq,
}
use ws_collab.Errors.{ok, Error, raise, Result}
use ws_collab.Dict
use ws_collab.Json.{Python}
use ws_collab.Ids.{Base64}
use ws_collab.Broker
use ws_collab.Stream.{Stream}
use ws_collab.Event.Validate.Admission.{
  Outcome, validate_new_event-IsAdmitted, IsAdmitted, IsEventOf,
}
use ws_collab.Stream.Append
use ws_collab.Store.{
  Store, stream, hold, is_hosted, opened_stream, append_on, store_append, filename,
}

module _ (py : Python) (b64 : Base64) where
  -- A stream that is put into the store is found there.
  stream-hold_same :
      (a : Text) (s t : Stream) (st : Store)
      → stream py b64 a st ≡ ok s
      → stream py b64 a (hold a t st) ≡ ok t
  unfolding stream is_hosted opened_stream
  stream-hold_same a s t st h =
      let there : Dict.get (Dict.put st.opened a t) a ≡ some t =
        rw (Dict.get-put st.opened a t a, (text_eq.same_iff a a).1 refl) refl in
      let file = filename a in
      let disk : Dict.get (Dict.put st.files file t.disk) file ≡ some t.disk =
        rw (Dict.get-put st.files file t.disk file, (text_eq.same_iff file file).1 refl) refl in
      elim (Bool-cases (has_key streams a || is_member st.dynamic a)) [
        | inl p ↦ rw (stream, p, there, opened_stream, disk) refl
        | inr p ↦ absurd (never (rw (stream, p) refl))
      ]
    where
      never : stream py b64 a st ≡ raise Error.validation → ⊥
      never q = cc

  -- What an append leaves of a stream that was found.
  stream-store_append :
      (new_id now : Text) (e : Event) (s : Stream) (st : Store)
      → stream py b64 e.stream st ≡ ok s
      → stream py b64 e.stream (store_append py b64 new_id now e st).1
        ≡ ok (Append.append py b64 new_id now e s).1
  unfolding store_append append_on
  stream-store_append new_id now e s st h =
      rw (store_append, h)
        (stream-hold_same e.stream s (Append.append py b64 new_id now e s).1 st h)

  publish_stored :
      (is_closed : ℕ → Bool) (new_id now : Text) (d : Draft) (sv : Service) (e : Event)
      (s s' : Stream) (r : AppendResult)
      → validate_new_event sv.registered new_id now (with_data d) ≡ ok e
      → stream py b64 e.stream sv.store ≡ ok s
      → Append.append py b64 new_id now e s ≡ (ok r, s')
      → publish py b64 is_closed new_id now d sv ≡ (
        ok (reply_of d r),
        record sv { store = hold e.stream s' sv.store; broker = notify is_closed r sv.broker },
      )
  unfolding publish publish_event store_append append_on replied
  publish_stored is_closed new_id now d sv e s s' r v f a =
      rw (publish, v, publish_event, store_append, f, append_on, a, replied) refl

  -- What a second publication under a key comes to: a reply with the identity of the first, and the
  -- listeners and the stream as they were.
  pub record IsRepeat (name first_id : Text) (first_seq : ℕ) (before : Service)
      (outcome : Result Reply × Service) : Type 0 where
    pub reply : Reply
    pub replies : outcome.0 ≡ ok reply
    pub is_duplicate : reply.duplicate ≡ true
    pub same_id : reply.id ≡ first_id
    pub same_seq : reply.seq ≡ some first_seq
    pub same_broker : outcome.1.broker ≡ before.broker
    pub same_stream : stream py b64 name outcome.1.store ≡ stream py b64 name before.store

  -- A duplicate is not announced.
  silent :
      (is_closed : ℕ → Bool) (r : AppendResult) (b : Listeners)
      → r.duplicate ≡ true
      → notify is_closed r b ≡ b
  unfolding notify
  silent is_closed r b h = rw (notify, h) refl

  extra_end :
      (registered : List Text) (new_id now : Text) (d : Draft) (e : Event)
      → validate_new_event registered new_id now d ≡ ok e
      → IsExtra e.extra
  unfolding Outcome
  extra_end registered new_id now d e h =
      let admitted : IsEventOf registered new_id now d e =
        subst (IsAdmitted registered new_id now d) h
          (validate_new_event-IsAdmitted registered new_id now d).0 in
      subst IsExtra (sym (ap (λ x. x.extra) admitted.made)) tt

  -- When a draft is valid and its key new to the stream, which has fewer segments than the limit, then
  -- publishing it hands the event to the listeners; and publishing a valid draft for the same stream
  -- under the same key again, whatever else it holds, is answered with the number and the identifier of
  -- the first, hands nothing to the listeners and leaves the stream as it is.
  pub publish-publish :
      (is_closed : ℕ → Bool) (id1 id2 now1 now2 : Text) (d d2 : Draft) (sv : Service) (e e2 : Event)
      (s : Stream) (k : Text)
      → validate_new_event sv.registered id1 now1 (with_data d) ≡ ok e
      → validate_new_event sv.registered id2 now2 (with_data d2) ≡ ok e2
      → e2.stream ≡ e.stream
      → stream py b64 e.stream sv.store ≡ ok s
      → key_of e.idempotency_key ≡ some k
      → key_of e2.idempotency_key ≡ some k
      → find_seen (some k) s.idempotency ≡ none
      → length s.segments < s.retention_max_files
      → let sv1 = (publish py b64 is_closed id1 now1 d sv).1 in
        (sv1.broker
          ≡ Broker.publish Event
              (λ x. x.stream)
              is_closed
              (append_new py b64 id1 now1 e s).0.event
              sv.broker)
        × IsRepeat e.stream
            (written_event id1 now1 e s).id
            (s.seq + 1)
            sv1
            (publish py b64 is_closed id2 now2 d2 sv1)
  unfolding notify append_new
  publish-publish is_closed id1 id2 now1 now2 d d2 sv e e2 s k v v2 same f k1 k2 fresh room =
      let fresh' = ap (λ z. find_seen z s.idempotency) k1 ∙ fresh in
      let a = append_fresh py b64 id1 now1 e s fresh' in
      let new = append_new py b64 id1 now1 e s in
      let one = publish_stored is_closed id1 now1 d sv e s new.1 new.0 v f a in
      let extra = extra_end sv.registered id2 now2 (with_data d2) e2 v2 in
      let (r, again, dup, i, n) =
        append-append_same_key py b64 id1 id2 now1 now2 e e2 s k k1 k2 fresh room extra in
      let sv1 : Service = record sv {
        store = hold e.stream new.1 sv.store;
        broker = notify is_closed new.0 sv.broker;
      } in
      let found : stream py b64 e.stream sv1.store ≡ ok new.1 =
        stream-hold_same e.stream s new.1 sv.store f in
      let found2 : stream py b64 e2.stream sv1.store ≡ ok new.1 =
        subst (λ x. stream py b64 x sv1.store ≡ ok new.1) (sym same) found in
      let again' : Append.append py b64 id2 now2 e2 new.1 ≡ (ok r, new.1) =
        subst (λ z. Append.append py b64 id2 now2 e2 z.1 ≡ (ok r, z.1)) a again in
      let two = publish_stored is_closed id2 now2 d2 sv1 e2 new.1 new.1 r v2 found2 again' in
      let kept_stream : stream py b64 e.stream (hold e2.stream new.1 sv1.store)
          ≡ stream py b64 e.stream sv1.store =
        subst
          (λ x. stream py b64 e.stream (hold x new.1 sv1.store) ≡ stream py b64 e.stream sv1.store)
          (sym same) (stream-hold_same e.stream new.1 new.1 sv1.store found ∙ sym found) in
      rw one (
        refl,
        record {
          reply = reply_of d2 r;
          replies = ap (λ z. z.0) two;
          is_duplicate = dup;
          same_id = i;
          same_seq = n;
          same_broker = ap (λ z. z.1.broker) two ∙ silent is_closed r sv1.broker dup;
          same_stream = ap (λ z. stream py b64 e.stream z.1.store) two ∙ kept_stream;
        },
      )
