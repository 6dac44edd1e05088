-- ===== src/RakNet/MessageIds.antt =====
-- Include/MessageIdentifiers.h: the enumerators of `DefaultMessageIDTypes`, in order. An
-- enumerator's value is its position; the program's own identifiers start at the last one.
use rrpg.Common.{ℕ, String, some, List, [], ◌∷◌, ◌++◌, ◌≡◌, refl, get_elem?}

-- The connection and low-level identifiers.
abbrev pub connection_ids : List String
connection_ids =
    "ID_CONNECTED_PING" ∷ "ID_UNCONNECTED_PING" ∷ "ID_UNCONNECTED_PING_OPEN_CONNECTIONS"
    ∷ "ID_CONNECTED_PONG" ∷ "ID_DETECT_LOST_CONNECTIONS" ∷ "ID_OPEN_CONNECTION_REQUEST_1"
    ∷ "ID_OPEN_CONNECTION_REPLY_1" ∷ "ID_OPEN_CONNECTION_REQUEST_2" ∷ "ID_OPEN_CONNECTION_REPLY_2"
    ∷ "ID_CONNECTION_REQUEST" ∷ "ID_REMOTE_SYSTEM_REQUIRES_PUBLIC_KEY"
    ∷ "ID_OUR_SYSTEM_REQUIRES_SECURITY" ∷ "ID_PUBLIC_KEY_MISMATCH" ∷ "ID_OUT_OF_BAND_INTERNAL"
    ∷ "ID_SND_RECEIPT_ACKED" ∷ "ID_SND_RECEIPT_LOSS" ∷ "ID_CONNECTION_REQUEST_ACCEPTED"
    ∷ "ID_CONNECTION_ATTEMPT_FAILED" ∷ "ID_ALREADY_CONNECTED" ∷ "ID_NEW_INCOMING_CONNECTION"
    ∷ "ID_NO_FREE_INCOMING_CONNECTIONS" ∷ "ID_DISCONNECTION_NOTIFICATION" ∷ "ID_CONNECTION_LOST"
    ∷ "ID_CONNECTION_BANNED" ∷ "ID_INVALID_PASSWORD" ∷ "ID_INCOMPATIBLE_PROTOCOL_VERSION"
    ∷ "ID_IP_RECENTLY_CONNECTED" ∷ "ID_TIMESTAMP" ∷ "ID_UNCONNECTED_PONG" ∷ "ID_ADVERTISE_SYSTEM"
    ∷ "ID_DOWNLOAD_PROGRESS" ∷ "ID_REMOTE_DISCONNECTION_NOTIFICATION" ∷ "ID_REMOTE_CONNECTION_LOST"
    ∷ "ID_REMOTE_NEW_INCOMING_CONNECTION" ∷ []

-- The identifiers of the plugins, up to the fully connected mesh.
abbrev pub plugin_ids : List String
plugin_ids =
    "ID_FILE_LIST_TRANSFER_HEADER" ∷ "ID_FILE_LIST_TRANSFER_FILE"
    ∷ "ID_FILE_LIST_REFERENCE_PUSH_ACK" ∷ "ID_DDT_DOWNLOAD_REQUEST" ∷ "ID_TRANSPORT_STRING"
    ∷ "ID_REPLICA_MANAGER_CONSTRUCTION" ∷ "ID_REPLICA_MANAGER_SCOPE_CHANGE"
    ∷ "ID_REPLICA_MANAGER_SERIALIZE" ∷ "ID_REPLICA_MANAGER_DOWNLOAD_STARTED"
    ∷ "ID_REPLICA_MANAGER_DOWNLOAD_COMPLETE" ∷ "ID_RAKVOICE_OPEN_CHANNEL_REQUEST"
    ∷ "ID_RAKVOICE_OPEN_CHANNEL_REPLY" ∷ "ID_RAKVOICE_CLOSE_CHANNEL" ∷ "ID_RAKVOICE_DATA"
    ∷ "ID_AUTOPATCHER_GET_CHANGELIST_SINCE_DATE" ∷ "ID_AUTOPATCHER_CREATION_LIST"
    ∷ "ID_AUTOPATCHER_DELETION_LIST" ∷ "ID_AUTOPATCHER_GET_PATCH" ∷ "ID_AUTOPATCHER_PATCH_LIST"
    ∷ "ID_AUTOPATCHER_REPOSITORY_FATAL_ERROR"
    ∷ "ID_AUTOPATCHER_CANNOT_DOWNLOAD_ORIGINAL_UNMODIFIED_FILES"
    ∷ "ID_AUTOPATCHER_FINISHED_INTERNAL" ∷ "ID_AUTOPATCHER_FINISHED"
    ∷ "ID_AUTOPATCHER_RESTART_APPLICATION" ∷ "ID_NAT_PUNCHTHROUGH_REQUEST"
    ∷ "ID_NAT_CONNECT_AT_TIME" ∷ "ID_NAT_GET_MOST_RECENT_PORT" ∷ "ID_NAT_CLIENT_READY"
    ∷ "ID_NAT_TARGET_NOT_CONNECTED" ∷ "ID_NAT_TARGET_UNRESPONSIVE"
    ∷ "ID_NAT_CONNECTION_TO_TARGET_LOST" ∷ "ID_NAT_ALREADY_IN_PROGRESS"
    ∷ "ID_NAT_PUNCHTHROUGH_FAILED" ∷ "ID_NAT_PUNCHTHROUGH_SUCCEEDED" ∷ "ID_READY_EVENT_SET"
    ∷ "ID_READY_EVENT_UNSET" ∷ "ID_READY_EVENT_ALL_SET" ∷ "ID_READY_EVENT_QUERY"
    ∷ "ID_LOBBY_GENERAL" ∷ "ID_RPC_REMOTE_ERROR" ∷ "ID_RPC_PLUGIN" ∷ "ID_FILE_LIST_REFERENCE_PUSH"
    ∷ "ID_READY_EVENT_FORCE_ALL_SET" ∷ "ID_ROOMS_EXECUTE_FUNC" ∷ "ID_ROOMS_LOGON_STATUS"
    ∷ "ID_ROOMS_HANDLE_CHANGE" ∷ "ID_LOBBY2_SEND_MESSAGE" ∷ "ID_LOBBY2_SERVER_ERROR"
    ∷ "ID_FCM2_NEW_HOST" ∷ "ID_FCM2_REQUEST_FCMGUID" ∷ "ID_FCM2_RESPOND_CONNECTION_COUNT"
    ∷ "ID_FCM2_INFORM_FCMGUID" ∷ "ID_FCM2_UPDATE_MIN_TOTAL_CONNECTION_COUNT" ∷ []

-- The other plugins' and the reserved identifiers.
abbrev pub reserved_ids : List String
reserved_ids =
    "ID_FCM2_VERIFIED_JOIN_START" ∷ "ID_FCM2_VERIFIED_JOIN_CAPABLE" ∷ "ID_FCM2_VERIFIED_JOIN_FAILED"
    ∷ "ID_FCM2_VERIFIED_JOIN_ACCEPTED" ∷ "ID_FCM2_VERIFIED_JOIN_REJECTED" ∷ "ID_UDP_PROXY_GENERAL"
    ∷ "ID_SQLite3_EXEC" ∷ "ID_SQLite3_UNKNOWN_DB" ∷ "ID_SQLLITE_LOGGER"
    ∷ "ID_NAT_TYPE_DETECTION_REQUEST" ∷ "ID_NAT_TYPE_DETECTION_RESULT" ∷ "ID_ROUTER_2_INTERNAL"
    ∷ "ID_ROUTER_2_FORWARDING_NO_PATH" ∷ "ID_ROUTER_2_FORWARDING_ESTABLISHED"
    ∷ "ID_ROUTER_2_REROUTED" ∷ "ID_TEAM_BALANCER_INTERNAL" ∷ "ID_TEAM_BALANCER_REQUESTED_TEAM_FULL"
    ∷ "ID_TEAM_BALANCER_REQUESTED_TEAM_LOCKED" ∷ "ID_TEAM_BALANCER_TEAM_REQUESTED_CANCELLED"
    ∷ "ID_TEAM_BALANCER_TEAM_ASSIGNED" ∷ "ID_LIGHTSPEED_INTEGRATION" ∷ "ID_XBOX_LOBBY"
    ∷ "ID_TWO_WAY_AUTHENTICATION_INCOMING_CHALLENGE_SUCCESS"
    ∷ "ID_TWO_WAY_AUTHENTICATION_OUTGOING_CHALLENGE_SUCCESS"
    ∷ "ID_TWO_WAY_AUTHENTICATION_INCOMING_CHALLENGE_FAILURE"
    ∷ "ID_TWO_WAY_AUTHENTICATION_OUTGOING_CHALLENGE_FAILURE"
    ∷ "ID_TWO_WAY_AUTHENTICATION_OUTGOING_CHALLENGE_TIMEOUT"
    ∷ "ID_TWO_WAY_AUTHENTICATION_NEGOTIATION" ∷ "ID_CLOUD_POST_REQUEST" ∷ "ID_CLOUD_RELEASE_REQUEST"
    ∷ "ID_CLOUD_GET_REQUEST" ∷ "ID_CLOUD_GET_RESPONSE" ∷ "ID_CLOUD_UNSUBSCRIBE_REQUEST"
    ∷ "ID_CLOUD_SERVER_TO_SERVER_COMMAND" ∷ "ID_CLOUD_SUBSCRIPTION_NOTIFICATION" ∷ "ID_LIB_VOICE"
    ∷ "ID_RELAY_PLUGIN" ∷ "ID_NAT_REQUEST_BOUND_ADDRESSES" ∷ "ID_NAT_RESPOND_BOUND_ADDRESSES"
    ∷ "ID_FCM2_UPDATE_USER_CONTEXT" ∷ "ID_RESERVED_3" ∷ "ID_RESERVED_4" ∷ "ID_RESERVED_5"
    ∷ "ID_RESERVED_6" ∷ "ID_RESERVED_7" ∷ "ID_RESERVED_8" ∷ "ID_RESERVED_9" ∷ []

abbrev pub default_message_ids : List String
default_message_ids = connection_ids ++ (plugin_ids ++ (reserved_ids ++ "ID_USER_PACKET_ENUM" ∷ []))

abbrev pub id_connected_ping : ℕ
id_connected_ping = 0

abbrev pub id_unconnected_ping : ℕ
id_unconnected_ping = 1

abbrev pub id_connection_request_accepted : ℕ
id_connection_request_accepted = 16

abbrev pub id_connection_attempt_failed : ℕ
id_connection_attempt_failed = 17

abbrev pub id_already_connected : ℕ
id_already_connected = 18

abbrev pub id_new_incoming_connection : ℕ
id_new_incoming_connection = 19

abbrev pub id_no_free_incoming_connections : ℕ
id_no_free_incoming_connections = 20

abbrev pub id_disconnection_notification : ℕ
id_disconnection_notification = 21

abbrev pub id_connection_lost : ℕ
id_connection_lost = 22

abbrev pub id_connection_banned : ℕ
id_connection_banned = 23

abbrev pub id_invalid_password : ℕ
id_invalid_password = 24

abbrev pub id_incompatible_protocol_version : ℕ
id_incompatible_protocol_version = 25

abbrev pub id_timestamp : ℕ
id_timestamp = 27

abbrev pub id_remote_disconnection_notification : ℕ
id_remote_disconnection_notification = 31

abbrev pub id_remote_connection_lost : ℕ
id_remote_connection_lost = 32

abbrev pub id_remote_new_incoming_connection : ℕ
id_remote_new_incoming_connection = 33

abbrev pub id_user_packet_enum : ℕ
id_user_packet_enum = 134

-- Each constant is the position of its enumerator.
message_id_positions :
    (get_elem? default_message_ids id_connected_ping ≡ some "ID_CONNECTED_PING")
    × (get_elem? default_message_ids id_unconnected_ping ≡ some "ID_UNCONNECTED_PING")
    × (get_elem? default_message_ids id_connection_request_accepted
        ≡ some "ID_CONNECTION_REQUEST_ACCEPTED")
    × (get_elem? default_message_ids id_connection_attempt_failed
        ≡ some "ID_CONNECTION_ATTEMPT_FAILED")
    × (get_elem? default_message_ids id_already_connected ≡ some "ID_ALREADY_CONNECTED")
    × (get_elem? default_message_ids id_new_incoming_connection ≡ some "ID_NEW_INCOMING_CONNECTION")
    × (get_elem? default_message_ids id_no_free_incoming_connections
        ≡ some "ID_NO_FREE_INCOMING_CONNECTIONS")
    × (get_elem? default_message_ids id_disconnection_notification
        ≡ some "ID_DISCONNECTION_NOTIFICATION")
    × (get_elem? default_message_ids id_connection_lost ≡ some "ID_CONNECTION_LOST")
    × (get_elem? default_message_ids id_connection_banned ≡ some "ID_CONNECTION_BANNED")
    × (get_elem? default_message_ids id_invalid_password ≡ some "ID_INVALID_PASSWORD")
    × (get_elem? default_message_ids id_incompatible_protocol_version
        ≡ some "ID_INCOMPATIBLE_PROTOCOL_VERSION")
    × (get_elem? default_message_ids id_timestamp ≡ some "ID_TIMESTAMP")
    × (get_elem? default_message_ids id_remote_disconnection_notification
        ≡ some "ID_REMOTE_DISCONNECTION_NOTIFICATION")
    × (get_elem? default_message_ids id_remote_connection_lost ≡ some "ID_REMOTE_CONNECTION_LOST")
    × (get_elem? default_message_ids id_remote_new_incoming_connection
        ≡ some "ID_REMOTE_NEW_INCOMING_CONNECTION")
    × (get_elem? default_message_ids id_user_packet_enum ≡ some "ID_USER_PACKET_ENUM")
message_id_positions = (
  refl, refl, refl, refl, refl, refl, refl, refl, refl, refl, refl, refl, refl, refl, refl, refl,
  refl,
)
