-- ===== src/Rdma/Link/Tests.antt =====
-- Tests of the link between the two ends (src/rdma_utils.cc).
use zstore.Common.{refl, []}
use zstore.Rdma.{msg_mr}
use zstore.Rdma.Client.{Client}
use zstore.Rdma.Client
use zstore.Rdma.Server.{on_pre_conn, on_connection}
use zstore.Rdma.Link.{Link, new_link, receive_message, Reach, here, later, message}
use zstore.Rdma.Link.Unread.{IsUnread, Reach-new_link}
use zstore.Rdma.Tests.{raw_name, raw_buffer, gateway_name, waiting_keys}

abbrev first_link : Link
first_link = new_link raw_name raw_buffer gateway_name raw_buffer waiting_keys

-- The MR of the server has arrived.
abbrev second_link : Link
second_link = record first_link {
  client = record first_link.client { receives = [] };
  to_client = [];
  died = 1;
}

second_link-Reach : Reach first_link second_link
unfolding new_link receive_message Client.on_pre_conn Client.post_receive on_connection on_pre_conn
second_link-Reach = later here (message msg_mr [] refl refl)

Reach-new_link_example : IsUnread (on_connection (on_pre_conn raw_name raw_buffer)) second_link
Reach-new_link_example =
    Reach-new_link raw_name raw_buffer gateway_name raw_buffer waiting_keys second_link
      second_link-Reach
