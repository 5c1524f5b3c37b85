-- ===== src/Lib.antt =====
-- Verification of the media helper that connects nginx-rtmp to Agora.
--
-- The program: nginx-rtmp-module calls ngx_agora_helper.c. `ngx_agora_init` opens a session from the
-- stream's argument string, `ngx_agora_send_video` and `ngx_agora_send_audio` hand on RTMP messages,
-- and `ngx_agora_disconnect` closes the session. Behind the helper, libagorac/ sends the frames
-- through the Agora SDK.
--
-- Inside libagorac/, `agora_send_video` and `agora_send_audio` put each frame into a jitter buffer, and
-- a thread for each stream takes it out and sends it at the pace of the timestamps; with dual streams
-- the thread of the high stream passes the frame on to one that decodes it and encodes it again.
--
-- Which file models what (functions are in ngx_agora_helper.c, but for Config and what follows it):
--   Chain       `ngx_custom_copy`: a chain of buffers with a read position is a list of byte strings;
--               Chain/Copy has the reader of flat bytes that it is compared with
--   Nginx       what the code takes from nginx and nginx-rtmp-module, as an interface
--   Words       integers in memory, little- and big-endian
--   Video       Out: the static buffer and `append_aud`; ParamSets: `append_sps_pps`; Convert:
--               `avcc_to_annexb`; AnnexB: the description of an Annex B frame, and its proof;
--               Send: `ngx_agora_send_video`; Sync: `getVideoSyncBytesPos` of
--               libagorac/helpers/utilities.cpp
--   Audio       Memory: arrays with their bounds; Packet: `get_next_packet`, `encode_opus`,
--               `flush_encode_opus`; Decode: `convert_audio_sample_f32_s16`, `decode_acc_audio`;
--               Stream: one frame after another; Adts: `ngx_parse_aac_header` and the ADTS header;
--               Send: `allocate_buffer`, `ngx_flush_audio`, `ngx_agora_send_audio`; Volume:
--               `calcVol` and `getMax`
--   Text        C strings: `strstr`, `strchr`, `atoi`
--   Args        `find_arg_end`, `get_arg_value`, `ngx_agora_replace_forward_slash`
--   Session     Settings: the arguments of `ngx_agora_init`; Init: the rest of it,
--               `agora_init_audio` and `ngx_agora_disconnect`, over `agora_init` and
--               `agora_disconnect` as Agora and Sender have them
--   Config      `LocalConfig::readConfig`, `prepareLine` and `getKeyValue` of
--               libagorac/helpers/localconfig.cpp, on the lines of a file; Load: `loadConfig` and
--               `print`
--   Queue       libagorac/workqueue.h: `WorkQueue` and the thread that waits for it
--   Context     `Work` of libagorac/helpers/context.h
--   Sender      libagorac/agorac.cpp: `VideoThreadHandlerHigh`, `VideoThreadHandlerLow`,
--               `AudioThreadHandler` and `agora_disconnect` up to its sleep, with
--               `WaitForBuffering`; Order, Buffering, Low and Shutdown are about its runs; Calls:
--               `doSendHighVideo` and `doSendAudio`
--   Long        `long`, and what the code uses of `float` and `double` as an interface
--   Jitter      libagorac/helpers/utilities.cpp: `GetNextSamplingPoint`, `ResizeBuffer`, and the
--               tests of `CheckAndFillInVideoJb`; Pace: when `VideoThreadHandlerHigh` comes to the
--               frames of its buffer, with the time that each of its steps takes; Speed: the other
--               `GetNextSamplingPoint`
--   Fps         libagorac/agorac.cpp: `UpdatePredictedFps` and the counters of `agora_send_video`
--   Encoder     libagorac/helpers/agoraencoder.cpp: `encode`, `init` and what they call; Params:
--               `initParams`; Lifecycle: the pointers from the constructor to the destructor
--   Decoder     libagorac/helpers/agoradecoder.cpp: `decode` and `copyDeocodedFrame`; Lifecycle: the
--               constructor, `init` and the destructor
--   Low         libagorac/agorac.cpp: `doSendLowVideo`
--   Agora       libagorac/agorac.cpp: `agora_init` and `createAndInitAgoraService`, with `isNumber`;
--               Close: `agora_disconnect` from its sleep on; Debug: `agora_set_log_function`,
--               `agora_log`, `agora_log_message` and `agora_dump_audio_to_file`
--   Relay       the calls of `agora_send_video` that `ngx_agora_send_video` makes, among the steps of
--               the threads; Sound: those of `agora_send_audio` that `decode_acc_audio` makes
--   Log         libagorac/helpers/agoralog.cpp: `logMessage` and `CheckAndRollLogFile`
--   Observer    libagorac/userobserver.h and userobserver.cpp: `MyUserObserver`
--   Prelude     names, tests and list lemmas that the others share
-- Each Tests module runs its part on concrete inputs.
--
-- State and errors: a function that changes its arguments returns them. The output buffer of the
-- video path is the bytes written to it, with the room that is left. An error return is `leave`,
-- `missing`, `refused` or false; a run past the end of an array is none, `overrun` or `faulted`.
--
-- Threads: the state of Sender is what the threads share, with the place each has come to. A run is
-- any sequence of events: a call of nginx, a step of a thread, a wake-up with no notification. A step
-- is what a thread does between two waits or two accesses to what is shared; each access is taken to
-- be atomic, as the mutex of a queue makes it for `add`, `get` and `clear`. The outcome of a test that
-- reads the clock is part of the event, and Jitter and Fps compute it from the readings.
--
-- Loops: the loop of `avcc_to_annexb` runs on fuel, a round for each byte of the message and one; a
-- round reads a length field of a byte at least. The loop of `ngx_agora_replace_forward_slash` runs
-- on fuel, a round for each byte of the app id and one; a round shortens it. The loop of `encode` over
-- delayed frames has a round for each frame that is delayed, since a call of x264 without a picture
-- brings one out. The loop of `WaitForBuffering` counts its rounds. The other loops follow their data.
--
-- Machine integers: sizes are natural numbers, with the remainder written out where the code stores
-- one in a narrower type. The lengths of the video path are sums of bytes that are there, and fit
-- their types. The NAL length field has at most four bytes in nginx-rtmp-module. `atoi` is modelled
-- for values in the range of `int`.
--
-- The environment: `ngx_rtmp_rmemcpy`, the decoders, the Opus encoder, x264, swscale, the arithmetic of
-- `float` and `double`, the calls of the Agora SDK, the clock, and the failures of library calls are
-- parameters. A theorem names what it needs of them: that `ngx_rtmp_rmemcpy` reverses its bytes, that
-- `opus_encode` returns at least a byte for a whole frame, that the decoder gets 1024 samples out of a
-- frame, that x264 brings out delayed frames. The steady clock is taken not to go back.
--
-- Not modelled: that the other functions log, and what they log but for `print` (`calcVol` and `getMax`
-- only feed a log line); a failure of the nginx pool; the fields that are set in a codec context of
-- libavcodec; the calls that set up the tracks of the SDK and have no result. A thread that is detached
-- goes on: Close says which have not returned by then. Nothing creates a `MyUserObserver`, whose use is
-- commented out, so that Observer has no theorem.
pub mod Prelude
pub mod Chain
pub mod Nginx
pub mod Words
pub mod Video
pub mod Audio
pub mod Text
pub mod Args
pub mod Session
pub mod Config
pub mod Queue
pub mod Context
pub mod Sender
pub mod Long
pub mod Jitter
pub mod Fps
pub mod Encoder
pub mod Decoder
pub mod Low
pub mod Agora
pub mod Relay
pub mod Log
pub mod Observer
