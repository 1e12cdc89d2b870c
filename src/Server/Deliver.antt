-- ===== src/Server/Deliver.antt =====
-- A delivery gives a message to its receivers, all of it, and leaves the other clients alone.
use cosc402_assignment.Base.{
  ℕ, suc, ◌+◌, ◌^◌, ◌≤◌, ◌<◌, ◌≡◌, refl, sym, ap, ◌∙◌, inl, inr, append-nil, Bool, true, false,
  List, [], ◌∷◌, ◌++◌, arith, leb, ◌==◌, Bool-cases, if◌then◌else◌,
}
use cosc402_assignment.Base.Lists.{length, take, take_all, length-take}
use cosc402_assignment.Base.Outcome.{Outcome, done, Returns, returns, ◌>>=◌}
use cosc402_assignment.Base.Outcome
use cosc402_assignment.Cache.{Pool}
use cosc402_assignment.Cache.Ownership.{Owns, Owns-eq}
use cosc402_assignment.Buffer.Node.{Node, Buffer, Mem, AllGood, contents}
use cosc402_assignment.Buffer.Ownership.{and_nodes, count_nodes, count_nodes-append}
use cosc402_assignment.Buffer.Fill.{Result}
use cosc402_assignment.Buffer.Fill.Calm.{IsCalm, both, write_into_buffer-IsCalm}
use cosc402_assignment.Buffer.Fill.Laws.{
  Stores, nothing, stored, Written, write_into_buffer-Written,
}
use cosc402_assignment.ClientInfo.{ClientData, send_msg_to_client, queued}
use cosc402_assignment.Message.{Msg}
use cosc402_assignment.Server.{
  ServerInfo, Round, Delivery, get_client_list, is_receiver, deliver_one, sent_round, deliver_each,
  deliver_msg_to_all_clients,
}

-- The blocks of the writing buffers of the clients, beside what `others` counts.
abbrev pub and_clients : List ClientData → (ℕ → ℕ) → ℕ → ℕ
and_clients [] others = others
and_clients (c ∷ cs) others = and_nodes c.writing_buffer (and_clients cs others)

pub and_clients-and_nodes :
    (cs : List ClientData) (b : Buffer) (others : ℕ → ℕ) (a : ℕ)
    → and_clients cs (and_nodes b others) a ≡ count_nodes a b + and_clients cs others a
and_clients-and_nodes [] b others a = refl
and_clients-and_nodes (c ∷ cs) b others a = omega (arith, and_clients-and_nodes cs b others a)

-- A buffer counted before the clients instead of behind them, and the other way round.
pub to_front :
    {p : Pool} (cs : List ClientData) (b : Buffer) (others : ℕ → ℕ)
    → Owns p (and_clients cs (and_nodes b others))
    → Owns p (and_nodes b (and_clients cs others))
to_front cs b others o = Owns-eq _ o (λ a. omega (arith, and_clients-and_nodes cs b others a))

pub from_front :
    {p : Pool} (cs : List ClientData) (b : Buffer) (others : ℕ → ℕ)
    → Owns p (and_nodes b (and_clients cs others))
    → Owns p (and_clients cs (and_nodes b others))
from_front cs b others o = Owns-eq _ o (λ a. omega (arith, and_clients-and_nodes cs b others a))

-- The order in which the buffers, and the nodes lost in two deliveries, are counted.
counted_again :
    (cs : List ClientData) (b lost lost' : List Node) (others : ℕ → ℕ) (a : ℕ)
    → and_nodes b (and_clients cs (and_nodes (lost ++ lost') others)) a
      ≡ and_clients cs (and_nodes lost (and_nodes b (and_nodes lost' others))) a
counted_again cs b lost lost' others a = omega (
  arith,
  count_nodes-append a lost lost',
  and_clients-and_nodes cs (lost ++ lost') others a,
  and_clients-and_nodes cs lost (and_nodes b (and_nodes lost' others)) a,
  and_clients-and_nodes cs b (and_nodes lost' others) a,
  and_clients-and_nodes cs lost' others a,
)

abbrev pub AllWritable : List ClientData → Type 0
AllWritable [] = Unit {0}
AllWritable (c ∷ cs) = AllGood c.writing_buffer × AllWritable cs

abbrev pub count_receivers : Msg → List ClientData → ℕ
count_receivers msg [] = 0
count_receivers msg (c ∷ cs) = (if is_receiver msg c then 1 else 0) + count_receivers msg cs

-- The text of the message, without the 0 at its end.
abbrev pub text_of : Msg → List ℕ
text_of msg = take msg.size msg.content

-- What has become of a client: only its writing buffer may have changed, and that has the text at its
-- end if the message is for the client.
pub record Got (msg : Msg) (c c' : ClientData) : Type 0 where
  pub same : c' ≡ record c { writing_buffer = c'.writing_buffer }
  pub text :
      contents c'.writing_buffer
      ≡ contents c.writing_buffer ++ (if is_receiver msg c then text_of msg else [])
  pub good : AllGood c'.writing_buffer

abbrev pub AllGot : Msg → List ClientData → List ClientData → Type 0
AllGot msg [] [] = Unit {0}
AllGot msg [] (d ∷ ds) = ⊥
AllGot msg (c ∷ cs) [] = ⊥
AllGot msg (c ∷ cs) (d ∷ ds) = Got msg c d × AllGot msg cs ds

-- `lost` are the nodes that `write_into_buffer` drops if the message has no bytes.
pub record Delivers (msg : Msg) (cs : List ClientData) (others : ℕ → ℕ) (start : ℕ) (d : Delivery)
    : Type 0 where
  pub each : AllGot msg cs d.clients
  pub count : d.sent_count ≡ start + count_receivers msg cs
  pub calm : IsCalm d.mem
  pub lost : List Node
  pub owns : Owns d.mem.pool (and_clients d.clients (and_nodes lost others))
  pub no_loss : 0 < msg.size → lost ≡ []

-- A message that has bytes loses no node.
pub delivered-Owns :
    (msg : Msg) (cs : List ClientData) (others : ℕ → ℕ) (start : ℕ) (d : Delivery)
    → 0 < msg.size
    → Delivers msg cs others start d
    → Owns d.mem.pool (and_clients d.clients others)
delivered-Owns msg cs others start d pos v = Owns-eq _ v.owns (λ a.
    omega
      (arith, ap (count_nodes a) (v.no_loss pos), and_clients-and_nodes d.clients v.lost others a))

record Turn (msg : Msg) (c : ClientData) (others : ℕ → ℕ) (start : ℕ) (r : Round) : Type 0 where
  got : Got msg c r.client
  count : r.sent_count ≡ start + (if is_receiver msg c then 1 else 0)
  calm : IsCalm r.mem
  lost : List Node
  owns : Owns r.mem.pool (and_nodes r.client.writing_buffer (and_nodes lost others))
  no_loss : 0 < msg.size → lost ≡ []

-- Where `malloc` refuses nothing, all the bytes are stored.
all_stored :
    (b : Buffer) (src : List ℕ) (m : Mem) (r : Result (List ℕ))
    → IsCalm m
    → Stores b src m r
    → contents r.buffer ≡ contents b ++ src
all_stored b src m r e (nothing ret same refused) = absurd (refused e)
all_stored b src m r e (stored le text all) =
    text ∙ ap (λ xs. contents b ++ xs) (take_all r.ret src (omega (arith, all e)))

all_of_it :
    (b : Buffer) (src : List ℕ) (m : Mem) (r : Result (List ℕ))
    → IsCalm m
    → Stores b src m r
    → r.ret ≡ length src
all_of_it b src m r e (nothing ret same refused) = absurd (refused e)
all_of_it b src m r e (stored le text all) = all e

if_yes : {A : Type 0} {b : Bool} {x : A} (y : A) → b ≡ true → (if b then x else y) ≡ x
if_yes {b = true} y e = refl
if_yes {b = false} y e = absurd (cc e)

if_no : {A : Type 0} {b : Bool} (x : A) {y : A} → b ≡ false → (if b then x else y) ≡ y
if_no {b = true} x e = absurd (cc e)
if_no {b = false} x e = refl

module _ (msg : Msg) (whole : msg.size ≤ length msg.content) (small : msg.size < 2 ^ 31) where
  deliver_one-Turn :
      (c : ClientData) (m : Mem) (others : ℕ → ℕ) (start : ℕ)
      → AllGood c.writing_buffer
      → Owns m.pool (and_nodes c.writing_buffer others)
      → IsCalm m
      → suc start < 2 ^ 31
      → Returns (Turn msg c others start) (deliver_one msg c m start)
  unfolding send_msg_to_client
  deliver_one-Turn c m others start g o calm few = elim (Bool-cases (is_receiver msg c)) [
    | inl chosen ↦
        let readable : leb msg.size (length msg.content) ≡ true = ground arith in
        Outcome.Returns-then _ chosen (
          Outcome.Returns-then _ readable (
            Outcome.bind
              (Outcome.bind
                (both
                  (write_into_buffer-Written others c.writing_buffer (text_of msg) m g o
                    (omega (arith, length-take msg.size msg.content)))
                  (write_into_buffer-IsCalm c.writing_buffer (text_of msg) m calm))
                (λ r w. returns (sent_turn r chosen w.0 w.1)))
              (λ a t. returns t)))
    | inr skipped ↦ Outcome.Returns-else _ skipped (
        returns (record {
          got = record {
            same = refl;
            text = sym (
                ap (λ xs. contents c.writing_buffer ++ xs) (if_no (text_of msg) skipped)
                ∙ append-nil (contents c.writing_buffer));
            good = g;
          };
          count = omega (arith, if_no {A = ℕ} 1 {y = 0} skipped);
          calm = calm;
          lost = [];
          owns = Owns-eq _ o (λ a. omega arith);
          no_loss = λ pos. refl;
        }))
  ]
    where
      sent_turn :
          (r : Result (List ℕ))
          → is_receiver msg c ≡ true
          → Written others c.writing_buffer (text_of msg) m r
          → IsCalm r.mem
          → Turn msg c others start (sent_round start (queued c r))
      sent_turn r chosen w still = record {
        got = record {
          same = refl;
          text =
              all_stored c.writing_buffer (text_of msg) m r calm w.stores
              ∙ ap (λ xs. contents c.writing_buffer ++ xs) (sym (if_yes [] chosen));
          good = w.good;
        };
        count = omega (arith, if_yes {A = ℕ} {x = 1} 0 chosen);
        calm = still;
        lost = w.lost;
        owns = w.owns;
        no_loss = λ pos. w.no_loss (
            omega (
              arith,
              all_of_it c.writing_buffer (text_of msg) m r calm w.stores,
              length-take msg.size msg.content,
            ));
      }

  deliver_each-Delivers :
      (cs : List ClientData) (m : Mem) (others : ℕ → ℕ) (start : ℕ)
      → AllWritable cs
      → Owns m.pool (and_clients cs others)
      → IsCalm m
      → start + length cs < 2 ^ 31
      → Returns (Delivers msg cs others start) (deliver_each msg cs m start)
  unfolding deliver_each
  deliver_each-Delivers [] m others start g o calm few = returns (record {
    each = tt;
    count = omega arith;
    calm = calm;
    lost = [];
    owns = Owns-eq _ o (λ a. omega arith);
    no_loss = λ pos. refl;
  })
  deliver_each-Delivers (c ∷ cs) m others start g o calm few =
      Outcome.bind (deliver_one-Turn c m (and_clients cs others) start g.0 o calm (omega arith))
        (λ r t.
          Outcome.bind
            (deliver_each-Delivers cs r.mem
              (and_nodes r.client.writing_buffer (and_nodes t.lost others)) r.sent_count g.1
              (Owns-eq _ t.owns (λ a. omega (
                arith,
                and_clients-and_nodes cs r.client.writing_buffer (and_nodes t.lost others) a,
                and_clients-and_nodes cs t.lost others a,
              )))
              t.calm (ground (arith, t.count)))
            (λ d s. returns (record {
              each = (t.got, s.each);
              count = omega (arith, s.count, t.count);
              calm = s.calm;
              lost = s.lost ++ t.lost;
              owns =
                  Owns-eq _ s.owns
                    (λ a. counted_again d.clients r.client.writing_buffer s.lost t.lost others a);
              no_loss = λ pos. rw (s.no_loss pos, t.no_loss pos) refl;
            })))

  -- If malloc refuses nothing, client_count is the number of clients, less than 2 ^ 31, the
  -- writing buffers are good and hold their blocks, and the message has its size, less than 2 ^
  -- 31, in its content, then deliver_msg_to_all_clients puts the whole text at the end of the
  -- writing buffer of every receiver, changes nothing else of any client, and returns the number
  -- of receivers; no block is shared, and none is lost if the text has a byte.
  pub deliver_msg_to_all_clients-Delivers :
      (server : ServerInfo) (m : Mem) (others : ℕ → ℕ)
      → AllWritable server.clients
      → Owns m.pool (and_clients server.clients others)
      → IsCalm m
      → server.client_count ≡ length server.clients
      → length server.clients < 2 ^ 31
      → Returns
          (Delivers msg server.clients others 0)
          (deliver_msg_to_all_clients true server msg m)
  unfolding deliver_msg_to_all_clients get_client_list
  deliver_msg_to_all_clients-Delivers server m others g o calm counted few =
      let same : (length server.clients == server.client_count) ≡ true = ground arith in
      rw same (
        Outcome.bind (deliver_each-Delivers server.clients m others 0 g o calm (omega arith))
          (λ d s. returns s))
