-- ===== src/Topics.antt =====
-- nt_topics.hpp, and the topics that the constructors of the parts publish and subscribe to:
-- smartio_bridge.cpp, gamepad_ingest.cpp, diagnostics_publisher.cpp and imu_publisher.cpp.
use pi5_system_surrogate.Prelude.{ℕ, List, [], ◌∷◌, ◌++◌}
use pi5_system_surrogate.Prelude.Text.{Text, codes}
use pi5_system_surrogate.Prelude.Decimal.{decimal}
use pi5_system_surrogate.SmartIo.Bridge.{PinMapping}
use pi5_system_surrogate.Threads.{
  TopicType, Value, double, doubles, text, Event, advertised, subscribed, published,
}

-- kServerReady, kControlData and kBattery.
abbrev pub server_ready_topic : Text
server_ready_topic = codes "/Netcomm/Control/ServerReady"

abbrev pub control_data_topic : Text
control_data_topic = codes "/Netcomm/Control/ControlData"

abbrev pub battery_topic : Text
battery_topic = codes "/sys/battery"

-- kCtrlEnabled, kCtrlMode, kCtrlAlliance and kCtrlEStop.
abbrev pub ctrl_enabled_topic : Text
ctrl_enabled_topic = codes "/dev/control/enabled"

abbrev pub ctrl_mode_topic : Text
ctrl_mode_topic = codes "/dev/control/mode"

abbrev pub ctrl_alliance_topic : Text
ctrl_alliance_topic = codes "/dev/control/alliance"

abbrev pub ctrl_e_stop_topic : Text
ctrl_e_stop_topic = codes "/dev/control/estop"

-- kDiagHeartbeat, kDiagP99, kDiagP50, kDiagUptime and kDiagBuildInfo.
abbrev pub diag_heartbeat_topic : Text
diag_heartbeat_topic = codes "/dev/diag/heartbeat"

abbrev pub diag_p99_topic : Text
diag_p99_topic = codes "/dev/diag/cadence_p99_ms"

abbrev pub diag_p50_topic : Text
diag_p50_topic = codes "/dev/diag/cadence_p50_ms"

abbrev pub diag_uptime_topic : Text
diag_uptime_topic = codes "/dev/diag/uptime_s"

abbrev pub build_info_topic : Text
build_info_topic = codes "/dev/diag/build_info"

-- kTypeProtoControlData
abbrev pub type_proto_control_data : Text
type_proto_control_data = codes "proto:mrc.proto.ProtobufControlData"

-- The topics that check_server_ready.cpp subscribes to.
abbrev pub check_ready_topic : Text × TopicType
check_ready_topic = (server_ready_topic, TopicType.boolean)

abbrev pub check_data_topic : Text × TopicType
check_data_topic = (control_data_topic, TopicType.raw type_proto_control_data)

-- `Publish` of a topic, and the first value set on it.
abbrev pub publishes : Text → TopicType → Value → List Event
publishes name type value = advertised name type ∷ published name value ∷ []

-- kArrayTopics and kScalarTopics, with kZero3 and kQuatIdent.
unfoldable pub array_topics : List (Text × List ℕ)
array_topics =
    (codes "/imu/rawaccel", 0 ∷ 0 ∷ 0 ∷ [])
    ∷ (codes "/imu/rawgyro", 0 ∷ 0 ∷ 0 ∷ [])
    ∷ (codes "/imu/quat", 1 ∷ 0 ∷ 0 ∷ 0 ∷ [])
    ∷ (codes "/imu/euler_flat", 0 ∷ 0 ∷ 0 ∷ [])
    ∷ (codes "/imu/euler_landscape", 0 ∷ 0 ∷ 0 ∷ [])
    ∷ (codes "/imu/euler_portrait", 0 ∷ 0 ∷ 0 ∷ [])
    ∷ []

unfoldable pub scalar_topics : List Text
scalar_topics = codes "/imu/yaw_flat" ∷ codes "/imu/yaw_landscape" ∷ codes "/imu/yaw_portrait" ∷ []

-- The two loops of the constructor of `ImuPublisher`.
abbrev publish_arrays : List (Text × List ℕ) → List Event
publish_arrays [] = []
publish_arrays ((name, values) ∷ more) =
    publishes name TopicType.double_array (doubles values) ++ publish_arrays more

abbrev publish_scalars : List Text → List Event
publish_scalars [] = []
publish_scalars (name ∷ more) = publishes name TopicType.double (double 0) ++ publish_scalars more

unfoldable pub imu_topics : List Event
unfolding array_topics scalar_topics
imu_topics = publish_arrays array_topics ++ publish_scalars scalar_topics

-- `std::format("/io/{}/type", m.channel)` and the two others.
unfoldable pub type_topic : ℕ → Text
unfolding decimal
type_topic channel = codes "/io/" ++ (decimal channel ++ codes "/type")

unfoldable pub valset_topic : ℕ → Text
unfolding decimal
valset_topic channel = codes "/io/" ++ (decimal channel ++ codes "/valset")

unfoldable pub valget_topic : ℕ → Text
unfolding decimal
valget_topic channel = codes "/io/" ++ (decimal channel ++ codes "/valget")

-- The constructor of `SmartIoBridge`.
unfoldable pub bridge_topics : List PinMapping → List Event
unfolding type_topic valset_topic valget_topic
bridge_topics [] = []
bridge_topics (m ∷ ms) =
    subscribed (type_topic m.channel) TopicType.integer
    ∷ subscribed (valset_topic m.channel) TopicType.integer
    ∷ advertised (valget_topic m.channel) TopicType.integer
    ∷ bridge_topics ms

-- The constructor of `GamepadIngest`.
unfoldable pub gamepad_topics : List Event
gamepad_topics =
    subscribed ctrl_enabled_topic TopicType.boolean
    ∷ subscribed ctrl_mode_topic TopicType.integer
    ∷ subscribed ctrl_alliance_topic TopicType.integer
    ∷ subscribed ctrl_e_stop_topic TopicType.boolean
    ∷ []

-- The constructor of `DiagnosticsPublisher`.
unfoldable pub diagnostics_topics : Text → List Event
diagnostics_topics build_info =
    advertised diag_heartbeat_topic TopicType.integer
    ∷ advertised diag_p99_topic TopicType.double
    ∷ advertised diag_p50_topic TopicType.double
    ∷ advertised diag_uptime_topic TopicType.double
    ∷ advertised build_info_topic TopicType.string
    ∷ published build_info_topic (text build_info)
    ∷ []

-- The topics that nt_smartio_test.cpp publishes to.
unfoldable pub client_topics : ℕ → List (Text × TopicType)
unfolding type_topic valset_topic
client_topics channel =
    (type_topic channel, TopicType.integer) ∷ (valset_topic channel, TopicType.integer) ∷ []
