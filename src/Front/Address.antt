-- ===== src/Front/Address.antt =====
-- About an address that iroh is given, across the dial that it triggers (transport.rs, driver.rs
-- and routing.rs together).
use iroh_ble_transport.Prelude.{Option, get, none, refl, some, ℕ, ◌+◌, ◌<◌, ◌^◌, ◌≡◌}
use iroh_ble_transport.Peer.{ConnectRole, DeviceId, EndpointId, prefix_from_endpoint, send_datagram}
use iroh_ble_transport.Routing.Address.{CustomAddrs, token_custom_addr}
use iroh_ble_transport.Routing.Table.{Routing, StableConnId}
use iroh_ble_transport.Routing.Tokens.{parse_token_addr-token_custom_addr}
use iroh_ble_transport.Routing.Promises.{NoWrap}
use iroh_ble_transport.Front.Resolver.{poll_next}
use iroh_ble_transport.Front.Sender.{Transmit, TrySend, accepted, poll_send, route, send_to, to}
use iroh_ble_transport.Driver.Pipes.{execute_start_data_pipe}
use iroh_ble_transport.Front.Dial.{Unreached, route-Promise}
use iroh_ble_transport.Front.Open.{
  execute_start_data_pipe-Promise, poll_next-OpenUnder, poll_next-Promise, route-OpenUnder,
}

module _ (api : CustomAddrs) (e : EndpointId) (d : DeviceId) where
  poll_send-token_custom_addr :
      (now : ℕ) (tx_gen : DeviceId → ℕ) (inbox : TrySend × TrySend) (i : StableConnId)
      (transmit : Transmit) (tx_bytes : ℕ) (r : Routing)
      → i < 2 ^ 64
      → poll_send api now tx_gen inbox (token_custom_addr api i) transmit tx_bytes r
        ≡ send_to tx_gen inbox transmit tx_bytes (route now i r)
  unfolding poll_send
  poll_send-token_custom_addr now tx_gen inbox i transmit tx_bytes r small =
      rw (poll_send, parse_token_addr-token_custom_addr api i small) refl

  send_to-accepted :
      (tx_gen : DeviceId → ℕ) (again : TrySend) (transmit : Transmit) (tx_bytes : ℕ)
      (target : Option EndpointId) (r : Routing)
      → (send_to tx_gen (accepted, again) transmit tx_bytes (r, to d target)).command
        ≡ some (send_datagram d target (tx_gen d) transmit.contents transmit.waker)
  unfolding send_to
  send_to-accepted tx_gen again transmit tx_bytes target r = refl

  -- An endpoint has no pipe and no reservation, its prefix has been seen on a device, and the next id
  -- is below 2^64 and no pipe's. Then the resolver emits an address; a datagram that is sent to it,
  -- with room in the inbox, is a command to that device to reach the endpoint; the pipe that the
  -- driver opens for that command is open under the id of the address; from then on a datagram that
  -- is sent to the same address goes to the device of the pipe, and the resolver has nothing to
  -- correct.
  pub address_survives_dial :
      (now1 now2 now3 now4 now5 waker1 waker2 tx_bytes : ℕ) (tx_gen : DeviceId → ℕ)
      (again : TrySend) (transmit : Transmit) (role : ConnectRole) (r : Routing)
      → NoWrap r
      → Unreached e r
      → get (prefix_from_endpoint e) r.scan_hint ≡ some d
      → get (r.next_id + 1) r.pipes ≡ none
      → let i = r.next_id + 1 in
        let addr = token_custom_addr api i in
        let polled = poll_next now1 waker1 e none r in
        let opened = execute_start_data_pipe now3 d role (some e) polled.routing in
        (polled.item ≡ some i)
        × ((poll_send api now2 tx_gen
              (accepted, again)
              addr
              transmit
              tx_bytes
              polled.routing).command
            ≡ some (send_datagram d (some e) (tx_gen d) transmit.contents transmit.waker))
        × (opened.stable_id ≡ i)
        × ((poll_send api now4 tx_gen
              (accepted, again)
              addr
              transmit
              tx_bytes
              opened.routing).command
            ≡ some (send_datagram d none (tx_gen d) transmit.contents transmit.waker))
        × ((poll_next now5 waker2 e polled.last_emitted opened.routing).item ≡ none)
  address_survives_dial now1 now2 now3 now4 now5 waker1 waker2 tx_bytes tx_gen again transmit role r
        small h hint fresh =
      let i = r.next_id + 1 in
      let inbox : TrySend × TrySend = (accepted, again) in
      let polled = poll_next now1 waker1 e none r in
      let (item, last, promise) = poll_next-Promise e d now1 waker1 r small h hint fresh in
      let opened = execute_start_data_pipe now3 d role (some e) polled.routing in
      let (same, open_under) =
        execute_start_data_pipe-Promise e d now3 role i polled.routing promise in
      (
        item,
        rw
            (
              poll_send-token_custom_addr now2 tx_gen inbox i transmit tx_bytes polled.routing
                  small,
              route-Promise e d now2 i polled.routing promise,
            )
            (send_to-accepted tx_gen again transmit tx_bytes (some e) polled.routing),
        same,
        rw
            (
              poll_send-token_custom_addr now4 tx_gen inbox i transmit tx_bytes opened.routing
                  small,
              route-OpenUnder e d now4 i opened.routing open_under,
            )
            (send_to-accepted tx_gen again transmit tx_bytes none opened.routing),
        rw last (poll_next-OpenUnder e d now5 waker2 i opened.routing open_under),
      )
