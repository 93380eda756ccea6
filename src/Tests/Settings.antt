-- ===== src/Tests/Settings.antt =====
-- The theorem on the settings of a bucket, at the room of `Rooms`.
use syncpond.Base.{◌≡◌, refl, true, ok}
use syncpond.State.{AppState, after}
use syncpond.State.Buckets.{set_bucket_flag_bit}
use syncpond.State.Buckets.Settings.{flag_changed, do_setting, IsRead, do_setting-IsRead}
use syncpond.State.Config.{new, set_jwt_audience, set_jwt_issuer, set_jwt_key}
use syncpond.State.Fragments.{set_fragment}
use syncpond.State.Labels.{set_room_label}
use syncpond.State.Members.{add_member}
use syncpond.State.Reachable.{run}
use syncpond.State.Rooms.{create_room}
use syncpond.Tests.Values.{Value}
use syncpond.Tests.Rooms.{app}

-- Bit 2 of the flags of bucket 0 is set.
abbrev flagged_app : AppState Value
flagged_app = after app (set_bucket_flag_bit 1 0 4 true app)

flagged_ok : do_setting 1 0 app flagged_app (flag_changed 4 true) ≡ ok flagged_app
unfolding run set_bucket_flag_bit new set_jwt_audience set_jwt_issuer set_jwt_key add_member
    set_room_label set_fragment create_room
flagged_ok = refl

do_setting-IsRead_example : IsRead 1 0 app flagged_app (flag_changed 4 true)
do_setting-IsRead_example = do_setting-IsRead 1 0 app flagged_app (flag_changed 4 true) flagged_ok
