-- ===== src/Ipc/Channels.antt =====
-- ipc/output_channel.py, proxy_output_channel.py and file_output_channel.py. What a channel does with a
-- payload is an interface, which the proxy channel uses for its sub-channels. `Payload` is any data.
pub mod Fanout
use fcpp_bridge.Prelude.{
  ℕ, ◌+◌, String, Bool, true, false, Option, none, some, List, [], ◌∷◌, string_key, nat_key, ◌==◌,
  ◌≡◌, refl, arith, if◌then◌else◌,
}
use fcpp_bridge.Prelude.Dict.{Dict, values, insert, remove}
use fcpp_bridge.Ipc.Exec.{
  Result, ok, err, Exec, value_error, attribute_error, continue, ◌>>=◌, ◌>>◌, for_each,
}

-- OutputChannel: a channel `C` with the world `W` of streams, loggers and callbacks, and
-- `ThreadPoolExecutor.map` over channels, which runs a call for each and raises if one of them did
pub record OutputChannel (C Payload W : Type 0) : Type 0 where
  pub send : C → String → Payload → Exec W (Unit {0})
  pub close : C → Exec W (Unit {0})
  pub clone : C → Exec W C
  pub pool_map : (C → Exec W (Unit {0})) → List C → Exec W (Unit {0})

pub data FanMode : Type 0 where
  one_by_one pooled : FanMode

pub record ProxyOutputChannel (C : Type 0) : Type 0 where
  pub fan_mode : FanMode
  pub channels : Dict ℕ C
  pub next_id : ℕ

module _ {C : Type 0} where
  -- ProxyOutputChannel.__init__
  unfoldable pub new_proxy_channel : String → Result (ProxyOutputChannel C)
  new_proxy_channel s =
      if s == "sequential"
      then ok (record { fan_mode = one_by_one; channels = []; next_id = 0 })
      else if s == "parallel"
      then ok (record { fan_mode = pooled; channels = []; next_id = 0 })
      else err value_error

  unfoldable pub add_channel : C → ProxyOutputChannel C → ℕ × ProxyOutputChannel C
  add_channel ch p =
      let cid = p.next_id in
      (cid, record p { next_id = cid + 1; channels = insert cid ch p.channels })

  unfoldable pub remove_channel : ℕ → ProxyOutputChannel C → ProxyOutputChannel C
  remove_channel channel_id p = record p { channels = remove channel_id p.channels }

module _ {C Payload W : Type 0} (o : OutputChannel C Payload W) where
  -- ProxyOutputChannel.send
  unfoldable pub send_proxy : ProxyOutputChannel C → String → Payload → Exec W (Unit {0})
  send_proxy p name payload = elim p.fan_mode [
    | one_by_one ↦ for_each (values p.channels) (λ ch. o.send ch name payload)
    | pooled ↦ elim (values p.channels) [
      | [] ↦ λ w. (ok tt, w)
      | c ∷ cs ↦ o.pool_map (λ ch. o.send ch name payload) (c ∷ cs)
    ]
  ]

  -- ProxyOutputChannel.close; the dict is cleared if every sub-channel closed.
  unfoldable pub close_proxy_channel : Exec (ProxyOutputChannel C × W) (Unit {0})
  close_proxy_channel (p, w) =
      let (r, w') = for_each (values p.channels) (λ ch. o.close ch) w in
      elim r [ ok u ↦ (ok tt, (record p { channels = [] }, w')) | err e ↦ (err e, (p, w')) ]

  unfoldable pub clone_channels : Dict ℕ C → Exec W (Dict ℕ C)
  clone_channels [] w = (ok [], w)
  clone_channels ((cid, ch) ∷ rest) w =
      (do c ← o.clone ch; cs ← clone_channels rest; (λ w. (ok ((cid, c) ∷ cs), w))) w

  -- ProxyOutputChannel.clone
  unfoldable pub clone_proxy : ProxyOutputChannel C → Exec W (ProxyOutputChannel C)
  clone_proxy p w =
      (do cs ← clone_channels p.channels; (λ w. (ok (record p { channels = cs }), w))) w

-- FileOutputChannel: the format in lower case, and whether there is a CSV writer
pub record FileOutputChannel : Type 0 where
  pub format : String
  pub stream : ℕ
  pub owns_stream : Bool
  pub has_csv_writer : Bool

-- str.lower(), open(path, "a"), the writes of a JSON line and of a CSV row, flush and close
pub record Streams (Payload W : Type 0) : Type 0 where
  pub lower : String → String
  pub open_append : String → Exec W ℕ
  pub write_json : ℕ → String → Payload → Exec W (Unit {0})
  pub write_row : ℕ → String → Payload → Exec W (Unit {0})
  pub flush : ℕ → Exec W (Unit {0})
  pub close_stream : ℕ → Exec W (Unit {0})

module _ {Payload W : Type 0} (s : Streams Payload W) where
  file_channel : String → ℕ → Bool → FileOutputChannel
  file_channel fmt stream owns = record {
    format = fmt;
    stream = stream;
    owns_stream = owns;
    has_csv_writer = fmt == "csv";
  }

  -- FileOutputChannel.__init__ with a path, and with an open stream
  unfoldable pub open_file_channel : String → String → Exec W FileOutputChannel
  unfolding file_channel
  open_file_channel path format w =
      (do n ← s.open_append path; (λ w. (ok (file_channel (s.lower format) n true), w))) w

  unfoldable pub stream_file_channel : ℕ → String → FileOutputChannel
  unfolding file_channel
  stream_file_channel stream format = file_channel (s.lower format) stream false

  -- FileOutputChannel.send; without a CSV writer `writerow` is called on None.
  unfoldable pub send_file : FileOutputChannel → String → Payload → Exec W (Unit {0})
  send_file c name payload w =
      if c.format == "json"
      then (s.write_json c.stream name payload >> s.flush c.stream) w
      else if c.has_csv_writer
      then (s.write_row c.stream name payload >> s.flush c.stream) w
      else (err attribute_error, w)

  unfoldable pub close_file : FileOutputChannel → Exec W (Unit {0})
  close_file c w = if c.owns_stream then s.close_stream c.stream w else (ok tt, w)

  unfoldable pub clone_file : FileOutputChannel → FileOutputChannel
  clone_file c = record c { owns_stream = false; has_csv_writer = c.format == "csv" }

  -- A channel of a format other than JSON and CSV is made without an error, and refuses every payload.
  pub send-other_format :
      (stream : ℕ) (format name : String) (payload : Payload) (w : W)
      → (s.lower format == "json") ≡ false
      → (s.lower format == "csv") ≡ false
      → send_file (stream_file_channel stream format) name payload w ≡ (err attribute_error, w)
  unfolding send_file stream_file_channel
  send-other_format stream format name payload w a b = ground (arith, a, b)

  -- Closing a clone leaves the stream open, however the original came by it.
  pub close-clone : (c : FileOutputChannel) (w : W) → close_file (clone_file c) w ≡ (ok tt, w)
  unfolding close_file clone_file
  close-clone c w = refl
