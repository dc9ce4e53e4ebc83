-- ===== src/Context/Seats.antt =====
-- How the non-VIP capacity follows the seats and the reservations.
use redp2p_c.Prelude.{◌-◌, ◌≡◌, arith}
use redp2p_c.Context.{Context, n_vips, update_nonvip_cap}

-- The non-VIP capacity and the reservations together never exceed the seats, unless the
-- reservations alone do.
pub update_nonvip_cap-eq :
    (c : Context) → (update_nonvip_cap c).nonvip_cap ≡ c.n_peers_cap - n_vips c
unfolding update_nonvip_cap
update_nonvip_cap-eq c = ground arith
