-- ===== src/Server/Receivers.antt =====
-- Who gets a message.
use cosc402_assignment.Base.{
  ℕ, ◌≡◌, ◌≢◌, ap, ◌∙◌, ◌⊎◌, inl, inr, true, false, arith, ◌==◌, ◌||◌, if◌then◌else◌,
}
use cosc402_assignment.Base.Strings.{c_string}
use cosc402_assignment.Base.Words.{size_max}
use cosc402_assignment.ClientInfo.{ClientData}
use cosc402_assignment.Message.{
  Msg, cmd_to_all, unknown_client, filter_out, is_msg_to_all, is_target, strcmp,
}
use cosc402_assignment.Message.Laws.{filter_out_iff, strcmp_zero, strcmp_self}
use cosc402_assignment.Server.{is_receiver}

tests_true :
    (p f a t : ℕ)
    → (if size_max == p then false else if f == 0 then false else (a == 0) || (t == 0)) ≡ true
    → (p ≢ size_max) × ((f ≢ 0) × ((a ≡ 0) ⊎ (t ≡ 0)))
tests_true p f a t e = ground arith

true_tests :
    (p f a t : ℕ)
    → p ≢ size_max
    → f ≢ 0
    → (a ≡ 0) ⊎ (t ≡ 0)
    → (if size_max == p then false else if f == 0 then false else (a == 0) || (t == 0)) ≡ true
true_tests p f a t np nf e = ground arith

-- The message is not kept from the client, and is for all or for a client of that name.
pub record IsReceiver (msg : Msg) (c : ClientData) : Type 0 where
  pub stays : c.pub_mark ≢ size_max
  pub included : c_string msg.exclude ≢ c_string c.name
  pub named : c_string c.name ≢ unknown_client
  pub meant : (c_string msg.target ≡ cmd_to_all) ⊎ (c_string msg.target ≡ c_string c.name)

-- The tests in the loop of deliver_msg_to_all_clients let a client get a message if and only if
-- the client is not marked to be logged out, its name is neither the one in the field exclude nor
-- "unknown", and the target of the message is "TO-ALL:" or that name.
pub is_receiver_iff :
    (msg : Msg) (c : ClientData)
    → (is_receiver msg c ≡ true → IsReceiver msg c) × (IsReceiver msg c → is_receiver msg c ≡ true)
unfolding is_msg_to_all is_target
is_receiver_iff msg c = (forth, back)
  where
    forth : is_receiver msg c ≡ true → IsReceiver msg c
    forth e =
        let (stays, (kept, meant)) =
          tests_true c.pub_mark (filter_out msg (c_string c.name)) (is_msg_to_all msg)
            (is_target msg (c_string c.name)) e in
        record {
          stays = stays;
          included = λ same. kept ((filter_out_iff msg (c_string c.name)).1 (inl same));
          named = λ same. kept ((filter_out_iff msg (c_string c.name)).1 (inr same));
          meant = elim meant [
            | inl z ↦ inl (strcmp_zero (c_string msg.target) cmd_to_all z)
            | inr z ↦ inr (strcmp_zero (c_string msg.target) (c_string c.name) z)
          ];
        }

    back : IsReceiver msg c → is_receiver msg c ≡ true
    back r =
        true_tests c.pub_mark (filter_out msg (c_string c.name)) (is_msg_to_all msg)
          (is_target msg (c_string c.name)) r.stays
          (λ z. elim ((filter_out_iff msg (c_string c.name)).0 z) [
            | inl same ↦ r.included same
            | inr same ↦ r.named same
          ])
          (elim r.meant [
            | inl z ↦ inl (ap (λ x. strcmp x cmd_to_all) z ∙ strcmp_self cmd_to_all)
            | inr z ↦ inr (ap (λ x. strcmp x (c_string c.name)) z ∙ strcmp_self (c_string c.name))
          ])
